-- ===== src/Dlfn/Symbols.antt =====
-- The tables that parse_symtab of dlfn.c fills.
use craftsman_console.Base.{
  ℕ, ◌≤◌, ◌≡◌, ap, sym, ◌∙◌, Bool, Bool-cases, inl, inr, List, [], ◌∷◌, ◌++◌, map, append_assoc,
  append-nil, arith, leb, if◌then◌else◌, length, length-append, take, take-append, take_all,
}
use craftsman_console.Dlfn.{
  Symbol, Library, max_symbols, collect, parse_symtab, is_function_symbol, is_object_symbol,
  function_of, object_of,
}

-- the elements that pass a test
abbrev pub filter {ℓ} : {A : Type ℓ} → (A → Bool) → List A → List A
filter p [] = []
filter p (x ∷ xs) = if p x then x ∷ filter p xs else filter p xs

module _ {ℓ} {A : Type ℓ} (wanted : Symbol → Bool) (make : Symbol → A) where
  -- The loop stops at the first symbol that is wanted and has no room, which is as if the table were
  -- cut off at its end.
  pub collect_lem :
      (symtab : List Symbol) (used : List A)
      → length used ≤ max_symbols
      → collect wanted make symtab used ≡ take max_symbols (used ++ map make (filter wanted symtab))
  unfolding collect
  collect_lem [] used h = rw append-nil (sym (take_all max_symbols used h))
  collect_lem (s ∷ symtab) used h = elim (Bool-cases (wanted s)) [
    | inl w ↦ elim (Bool-cases (leb max_symbols (length used))) [
      | inl full ↦ rw (w, collect, full) (sym (take-append max_symbols used _ (ground arith)))
      | inr room ↦
          rw (w, collect, room)
            (collect_lem symtab (used ++ make s ∷ [])
                (ground (arith, length-append used (make s ∷ [])))
              ∙ ap (take max_symbols)
                  (append_assoc used (make s ∷ []) (map make (filter wanted symtab))))
    ]
    | inr skip ↦ rw (skip, collect) (collect_lem symtab used h)
  ]

-- From empty tables, the tables hold the first 32 global functions of the symbol table that are not
-- empty, and the first 32 such objects, in its order and with nothing left out among them.
pub parse_symtab-first :
    (addr : ℕ) (symtab : List Symbol) (lib : Library)
    → lib.functions ≡ []
    → lib.objects ≡ []
    → ((parse_symtab addr symtab lib).functions
        ≡ take max_symbols (map (function_of addr) (filter is_function_symbol symtab)))
      × ((parse_symtab addr symtab lib).objects
          ≡ take max_symbols (map (object_of addr) (filter is_object_symbol symtab)))
unfolding parse_symtab
parse_symtab-first addr symtab lib no_functions no_objects = (
  rw no_functions (collect_lem is_function_symbol (function_of addr) symtab [] (omega arith)),
  rw no_objects (collect_lem is_object_symbol (object_of addr) symtab [] (omega arith)),
)
