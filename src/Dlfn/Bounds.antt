-- ===== src/Dlfn/Bounds.antt =====
-- dlfn.c: how many entries opening the library leaves in the tables.
use Prim.Native.Nat.{Ordering}
use craftsman_console.Base.{
  ℕ, ◌≤◌, ◌≡◌, Bool, true, false, Bool-cases, inl, inr, List, [], ◌∷◌, Option, none, some,
  Option-cases, ◌==◌, ◌++◌, leb, length, length-append, arith, strstr,
}
use craftsman_console.Dlfn.{
  Symbol, Library, is_function_symbol, is_object_symbol, function_of, object_of, max_symbols,
  Function, Object, symbol_order, object_order, collect, parse_symtab,
}
use craftsman_console.Dlfn.Open.{
  Libc, LinkMap, find_tables, parse_dynamic_header, dynamic_header, parse_elf_header, parse_maps,
  sort_functions, sort_objects, dlfn_open, dlfn_init, extension,
}

-- What is relied on of qsort here: the array has as many entries as before.
abbrev pub KeepsNumber : Libc → Type 1
KeepsNumber libc =
    (A : Type 0) (order : A → A → Ordering) (xs : List A) → length (libc.qsort order xs) ≡ length xs

abbrev pub FewSymbols : Library → Type 0
FewSymbols lib = (length lib.functions ≤ max_symbols) × (length lib.objects ≤ max_symbols)

length-collect {ℓ} :
    {A : Type ℓ} (wanted : Symbol → Bool) (make : Symbol → A) (symtab : List Symbol) (used : List A)
    → length used ≤ max_symbols
    → length (collect wanted make symtab used) ≤ max_symbols
unfolding collect
length-collect wanted make [] used few = few
length-collect wanted make (s ∷ symtab) used few = elim (Bool-cases (wanted s)) [
  | inl w ↦ elim (Bool-cases (leb max_symbols (length used))) [
    | inl full ↦ rw (w, collect, full) few
    | inr room ↦
        rw (w, collect, room)
          (length-collect wanted make symtab (used ++ make s ∷ [])
            (ground (arith, room, length-append used (make s ∷ []))))
  ]
  | inr w ↦ rw (w, collect) (length-collect wanted make symtab used few)
]

parse_elf_header-FewSymbols :
    (m : LinkMap) (lib : Library) → FewSymbols lib → FewSymbols (parse_elf_header m lib)
unfolding parse_elf_header parse_dynamic_header parse_symtab
parse_elf_header-FewSymbols m lib few = elim (Option-cases (dynamic_header m.headers none)) [
  | inl e ↦ rw (parse_elf_header, e) few
  | inr (phdr, e) ↦
      rw (parse_elf_header, e)
        (elim (Bool-cases ((find_tables phdr.dynamic (0, 0)).1 == 0)) [
          | inl null ↦ rw (parse_dynamic_header, null) few
          | inr there ↦
              let symbols =
                m.symbols (find_tables phdr.dynamic (0, 0)).1 (find_tables phdr.dynamic (0, 0)).0 in
              rw (parse_dynamic_header, there)
                (
                  length-collect is_function_symbol (function_of m.l_addr) symbols lib.functions
                      few.0,
                  length-collect is_object_symbol (object_of m.l_addr) symbols lib.objects few.1,
                )
        ])
]

parse_maps-FewSymbols :
    (maps : List LinkMap) (lib : Library) → FewSymbols lib → FewSymbols (parse_maps maps lib)
unfolding parse_maps
parse_maps-FewSymbols [] lib few = few
parse_maps-FewSymbols (m ∷ maps) lib few = elim (Bool-cases (strstr m.l_name lib.dlname)) [
  | inl e ↦
      rw (parse_maps, e)
        (parse_maps-FewSymbols maps (parse_elf_header m lib)
          (parse_elf_header-FewSymbols m lib few))
  | inr e ↦ rw (parse_maps, e) (parse_maps-FewSymbols maps lib few)
]

-- The tables have 32 entries at most, whatever the loader answers, where they have before.
pub dlfn_open-FewSymbols :
    (libc : Libc) (handle : Bool) (maps : Option (List LinkMap)) (lib : Library)
    → KeepsNumber libc
    → FewSymbols lib
    → FewSymbols (dlfn_open libc handle maps lib).1
unfolding dlfn_open sort_functions sort_objects
dlfn_open-FewSymbols libc false maps lib keeps few = few
dlfn_open-FewSymbols libc true none lib keeps few = few
dlfn_open-FewSymbols libc true (some maps) lib keeps few =
    let opened : Library = record lib { dlhandle = true } in
    let parsed = parse_maps maps opened in
    let fit = parse_maps-FewSymbols maps opened few in
    (
      omega (arith, keeps Function symbol_order parsed.functions, fit.0),
      omega (arith, keeps Object object_order parsed.objects, fit.1),
    )

pub dlfn_init-FewSymbols :
    (filepath : List ℕ) (lib : Library) → FewSymbols lib → FewSymbols (dlfn_init filepath lib).1
unfolding dlfn_init
dlfn_init-FewSymbols filepath lib few = elim (Bool-cases (strstr filepath extension)) [
  | inl e ↦ rw (dlfn_init, e) few
  | inr e ↦ rw (dlfn_init, e) few
]
