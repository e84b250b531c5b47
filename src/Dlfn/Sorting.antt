-- ===== src/Dlfn/Sorting.antt =====
-- The tables of dlfn.c after the library is opened.
use mathlib.Core.List.{Perm}
use Prim.Native.Nat.{Ordering, compare}
use craftsman_console.Base.{
  ℕ, ◌≤◌, ◌≡◌, ◌≢◌, refl, Bool-cases, ap, ◌∙◌, subst, true, false, ◌⊎◌, inl, inr, List, [], ◌∷◌,
  ◌++◌, map, Option, none, some, arith, ◌==◌, take, strstr,
}
use craftsman_console.Dlfn.{
  Function, Object, Library, max_symbols, address_of, function_of, object_of, is_function_symbol,
  is_object_symbol, parse_symtab, symbol_order, object_order,
}
use craftsman_console.Dlfn.Symbols.{filter, parse_symtab-first}
use craftsman_console.Dlfn.Open.{
  ProgramHeader, LinkMap, Libc, sort_functions, sort_objects, find_tables, parse_dynamic_header,
  dynamic_header, parse_elf_header, parse_maps, dlfn_open,
}

-- `x` may stand before `y`.
abbrev pub Before {ℓ} : {A : Type ℓ} → (A → A → Ordering) → A → A → Type 0
Before order x y = order x y ≢ Ordering.gt

abbrev pub InOrder {ℓ} : {A : Type ℓ} → (A → A → Ordering) → List A → Type 0
InOrder order [] = Unit
InOrder order (x ∷ []) = Unit
InOrder order (x ∷ y ∷ l) = Before order x y × InOrder order (y ∷ l)

-- What qsort wants of its comparison: any two elements are in order one way or the other, and the
-- order goes on along a chain.
pub record IsConsistent {A : Type 0} (order : A → A → Ordering) : Type 0 where
  pub total : (x y : A) → Before order x y ⊎ Before order y x
  pub transitive : (x y z : A) → Before order x y → Before order y z → Before order x z

-- What the C standard says of qsort.
pub record IsQsort (libc : Libc) : Type 1 where
  pub sorted :
      {A : Type 0} (order : A → A → Ordering) (l : List A)
      → IsConsistent order
      → InOrder order (libc.qsort order l)
  pub permutes : {A : Type 0} (order : A → A → Ordering) (l : List A) → Perm (libc.qsort order l) l

not_gt→≤ : (a b : ℕ) → compare a b ≢ Ordering.gt → a ≤ b
not_gt→≤ a b h = ground arith

≤→not_gt : (a b : ℕ) → a ≤ b → compare a b ≢ Ordering.gt
≤→not_gt a b h = ground arith

le_total : (a b : ℕ) → (a ≤ b) ⊎ (b ≤ a)
le_total a b = omega arith

-- a comparison of numbers that stand for the elements
by_key-IsConsistent : {A : Type 0} (key : A → ℕ) → IsConsistent (λ x y. compare (key x) (key y))
by_key-IsConsistent key = record {
  total = λ x y. elim (le_total (key x) (key y)) [
    | inl le ↦ inl (≤→not_gt _ _ le)
    | inr ge ↦ inr (≤→not_gt _ _ ge)
  ];
  transitive = λ x y z xy yz.
      let first = not_gt→≤ _ _ xy in let second = not_gt→≤ _ _ yz in ≤→not_gt _ _ (omega arith);
}

-- Neighbours' numbers do not fall.
abbrev pub Ascends {ℓ} : {A : Type ℓ} → (A → ℕ) → List A → Type 0
Ascends key [] = Unit
Ascends key (x ∷ []) = Unit
Ascends key (x ∷ y ∷ l) = (key x ≤ key y) × Ascends key (y ∷ l)

InOrder-Ascends :
    {A : Type 0} (key : A → ℕ) (l : List A)
    → InOrder (λ x y. compare (key x) (key y)) l
    → Ascends key l
InOrder-Ascends key [] h = tt
InOrder-Ascends key (x ∷ []) h = tt
InOrder-Ascends key (x ∷ y ∷ l) h = (not_gt→≤ _ _ h.0, InOrder-Ascends key (y ∷ l) h.1)

abbrev pub function_address : Function → ℕ
function_address f = address_of f.fnctor.call

abbrev pub object_address : Object → ℕ
object_address o = o.address

-- None of the loaded objects is the library.
abbrev pub AllOther : List ℕ → List LinkMap → Type 0
AllOther dlname [] = Unit
AllOther dlname (m ∷ maps) = (strstr m.l_name dlname ≡ false) × AllOther dlname maps

parse_maps-AllOther :
    (maps : List LinkMap) (lib : Library) → AllOther lib.dlname maps → parse_maps maps lib ≡ lib
unfolding parse_maps
parse_maps-AllOther [] lib h = refl
parse_maps-AllOther (m ∷ maps) lib h = rw (parse_maps, h.0) (parse_maps-AllOther maps lib h.1)

parse_maps-library :
    (before after : List LinkMap) (m : LinkMap) (lib : Library)
    → AllOther lib.dlname before
    → strstr m.l_name lib.dlname ≡ true
    → parse_maps (before ++ m ∷ after) lib ≡ parse_maps after (parse_elf_header m lib)
unfolding parse_maps
parse_maps-library [] after m lib h named = rw (parse_maps, named) refl
parse_maps-library (b ∷ before) after m lib h named =
    rw (parse_maps, h.0) (parse_maps-library before after m lib h.1 named)

-- None of the program headers is dynamic.
abbrev pub NoDynamic : List ProgramHeader → Type 0
NoDynamic [] = Unit
NoDynamic (h ∷ headers) = (h.is_dynamic ≡ false) × NoDynamic headers

-- The loaded object of the library: its dynamic header, and its tables.
pub record IsLibrary (m : LinkMap) (strtab symtab : ℕ) : Type 0 where
  pub headers_before : List ProgramHeader
  pub phdr : ProgramHeader
  pub headers_after : List ProgramHeader
  pub headers : m.headers ≡ headers_before ++ phdr ∷ headers_after
  pub dynamic : phdr.is_dynamic ≡ true
  pub none_after : NoDynamic headers_after
  pub tables : find_tables phdr.dynamic (0, 0) ≡ (strtab, symtab)
  pub has_symbols : (symtab == 0) ≡ false

dynamic_header-NoDynamic :
    (headers : List ProgramHeader) (h : ProgramHeader)
    → NoDynamic headers
    → dynamic_header headers (some h) ≡ some h
unfolding dynamic_header
dynamic_header-NoDynamic [] h n = refl
dynamic_header-NoDynamic (k ∷ headers) h n =
    rw (dynamic_header, n.0) (dynamic_header-NoDynamic headers h n.1)

dynamic_header-last :
    (before after : List ProgramHeader) (h : ProgramHeader) (found : Option ProgramHeader)
    → h.is_dynamic ≡ true
    → NoDynamic after
    → dynamic_header (before ++ h ∷ after) found ≡ some h
unfolding dynamic_header
dynamic_header-last [] after h found d n = simp (d, dynamic_header-NoDynamic after h n)
dynamic_header-last (b ∷ before) after h found d n = elim (Bool-cases b.is_dynamic) [
  | inl e ↦ rw (dynamic_header, e) (dynamic_header-last before after h (some b) d n)
  | inr e ↦ rw (dynamic_header, e) (dynamic_header-last before after h found d n)
]

parse_elf_header-library :
    (m : LinkMap) (strtab symtab : ℕ) (lib : Library)
    → IsLibrary m strtab symtab
    → parse_elf_header m lib ≡ parse_symtab m.l_addr (m.symbols symtab strtab) lib
unfolding parse_elf_header parse_dynamic_header
parse_elf_header-library m strtab symtab lib i =
    let found : dynamic_header m.headers none ≡ some i.phdr =
      ap (λ h. dynamic_header h none) i.headers
      ∙ dynamic_header-last i.headers_before i.headers_after i.phdr none i.dynamic i.none_after in
    rw (parse_elf_header, found) (rw (parse_dynamic_header, i.tables, i.has_symbols) refl)

-- Opening the library whose tables are empty, where dlopen and dlinfo succeed and one of the loaded objects
-- is the library, returns true. The tables hold the first 32 global functions of its symbol table that
-- are not empty and the first 32 such objects, each in the order of the addresses, whatever sorting
-- qsort is.
pub dlfn_open-sorted :
    (libc : Libc) (lib : Library) (before after : List LinkMap) (m : LinkMap) (strtab symtab : ℕ)
    → IsQsort libc
    → lib.functions ≡ []
    → lib.objects ≡ []
    → AllOther lib.dlname before
    → strstr m.l_name lib.dlname ≡ true
    → AllOther lib.dlname after
    → IsLibrary m strtab symtab
    → (lib' : Library) × (dlfn_open libc true (some (before ++ m ∷ after)) lib ≡ (true, lib'))
      × (lib'.dlhandle ≡ true)
      × Ascends function_address lib'.functions
      × Perm lib'.functions (
          take max_symbols
            (map (function_of m.l_addr) (filter is_function_symbol (m.symbols symtab strtab))))
      × Ascends object_address lib'.objects
      × Perm lib'.objects (
          take max_symbols
            (map (object_of m.l_addr) (filter is_object_symbol (m.symbols symtab strtab))))
unfolding dlfn_open sort_functions sort_objects symbol_order object_order parse_symtab
dlfn_open-sorted libc lib before after m strtab symtab q no_functions no_objects others named later
      i =
    let opened : Library = record lib { dlhandle = true } in
    let parsed : Library = parse_symtab m.l_addr (m.symbols symtab strtab) opened in
    let e : parse_maps (before ++ m ∷ after) opened ≡ parsed =
      parse_maps-library before after m opened others named
      ∙ ap (parse_maps after) (parse_elf_header-library m strtab symtab opened i)
      ∙ parse_maps-AllOther after parsed later in
    let (functions, objects) =
      parse_symtab-first m.l_addr (m.symbols symtab strtab) opened no_functions no_objects in
    (
      sort_objects libc (sort_functions libc parsed),
      ap (λ l. (true, sort_objects libc (sort_functions libc l))) e,
      refl,
      InOrder-Ascends function_address _
          (q.sorted symbol_order parsed.functions (by_key-IsConsistent function_address)),
      subst (Perm (libc.qsort symbol_order parsed.functions)) functions
          (q.permutes symbol_order parsed.functions),
      InOrder-Ascends object_address _
          (q.sorted object_order parsed.objects (by_key-IsConsistent object_address)),
      subst (Perm (libc.qsort object_order parsed.objects)) objects
          (q.permutes object_order parsed.objects),
    )
