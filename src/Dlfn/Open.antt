-- ===== src/Dlfn/Open.antt =====
-- dlfn.c: opening the library. What the loader answers is an argument, and so is qsort.
use Prim.Native.Nat.{Ordering}
use craftsman_console.Base.{
  ℕ, ◌-◌, Bool, true, false, List, [], ◌∷◌, Option, none, some, ◌==◌, if◌then◌else◌, take, strstr,
}
use craftsman_console.Dlfn.{
  Code, Function, Symbol, Library, max_path, parse_symtab, symbol_order, object_order, strcmp_eq,
}

-- An entry of a dynamic section, by its tag.
pub data Dyn : Type 0 where
  dt_strtab dt_symtab : ℕ → Dyn
  other_tag : Dyn

-- A program header, with the entries of the section at its address, up to the tag 0.
pub record ProgramHeader : Type 0 where
  pub is_dynamic : Bool
  pub dynamic : List Dyn

-- A loaded object: its name, its base, its program headers, and the symbols from an address up to
-- another.
pub record LinkMap : Type 0 where
  pub l_name : List ℕ
  pub l_addr : ℕ
  pub headers : List ProgramHeader
  pub symbols : ℕ → ℕ → List Symbol

-- stdlib.h's qsort
pub record Libc : Type 1 where
  pub qsort : {A : Type 0} → (A → A → Ordering) → List A → List A

unfoldable pub sort_functions : Libc → Library → Library
unfolding symbol_order
sort_functions libc lib = record lib { functions = libc.qsort symbol_order lib.functions }

unfoldable pub sort_objects : Libc → Library → Library
unfolding object_order
sort_objects libc lib = record lib { objects = libc.qsort object_order lib.objects }

-- The loop over the dynamic section: `strtab` and `symtab`, which are 0 for null.
unfoldable pub find_tables : List Dyn → ℕ × ℕ → ℕ × ℕ
find_tables [] tables = tables
find_tables (dt_strtab p ∷ dyn) (strtab, symtab) = find_tables dyn (p, symtab)
find_tables (dt_symtab p ∷ dyn) (strtab, symtab) = find_tables dyn (strtab, p)
find_tables (other_tag ∷ dyn) tables = find_tables dyn tables

unfoldable pub parse_dynamic_header : LinkMap → ProgramHeader → Library → Library
unfolding find_tables parse_symtab
parse_dynamic_header base phdr lib =
    let (strtab, symtab) = find_tables phdr.dynamic (0, 0) in
    if symtab == 0 then lib else parse_symtab base.l_addr (base.symbols symtab strtab) lib

-- The loop over the program headers: the last that is dynamic.
unfoldable pub dynamic_header : List ProgramHeader → Option ProgramHeader → Option ProgramHeader
dynamic_header [] found = found
dynamic_header (h ∷ headers) found = elim h.is_dynamic [
  | true ↦ dynamic_header headers (some h)
  | false ↦ dynamic_header headers found
]

unfoldable pub parse_elf_header : LinkMap → Library → Library
unfolding dynamic_header parse_dynamic_header
parse_elf_header base lib = elim (dynamic_header base.headers none) [
  | none ↦ lib
  | some phdr ↦ parse_dynamic_header base phdr lib
]

-- The loop over the loaded objects.
unfoldable pub parse_maps : List LinkMap → Library → Library
unfolding parse_elf_header strstr
parse_maps [] lib = lib
parse_maps (iter ∷ maps) lib = elim (strstr iter.l_name lib.dlname) [
  | true ↦ parse_maps maps (parse_elf_header iter lib)
  | false ↦ parse_maps maps lib
]

-- Whether dlopen gives a handle, and the loaded objects that dlinfo gives, `none` where it fails or
-- gives a null pointer. The return value, and the statics.
unfoldable pub dlfn_open : Libc → Bool → Option (List LinkMap) → Library → Bool × Library
unfolding parse_maps sort_functions sort_objects
dlfn_open libc false info lib = (false, record lib { dlhandle = false })
dlfn_open libc true none lib = (false, record lib { dlhandle = true })
dlfn_open libc true (some maps) lib = (
  true,
  sort_objects libc (sort_functions libc (parse_maps maps (record lib { dlhandle = true }))),
)

-- ".so"
abbrev pub extension : List ℕ
extension = b'.' ∷ b's' ∷ b'o' ∷ []

unfoldable pub dlfn_init : List ℕ → Library → Bool × Library
unfolding strstr
dlfn_init filepath lib =
    if strstr filepath extension
    then (true, record lib { dlname = take (max_path - 1) filepath })
    else (false, lib)

-- The results of the functions of that name, which are called without arguments.
unfoldable pub dlfn_call : (Code → ℕ) → List ℕ → List Function → List ℕ
unfolding strcmp_eq
dlfn_call call name [] = []
dlfn_call call name (f ∷ functions) =
    let rest = dlfn_call call name functions in
    if strcmp_eq name f.name then call f.fnctor.call ∷ rest else rest
