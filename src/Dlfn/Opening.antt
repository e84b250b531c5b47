-- ===== src/Dlfn/Opening.antt =====
-- The theorem on dlfn.c's dlfn_open, with a sort that stands for qsort.
use mathlib.Core.List.{Perm}
use mathlib.Core.List.Perm
use Prim.Native.Nat.{Ordering}
use craftsman_console.Base.{
  ℕ, ◌≡◌, ◌≢◌, refl, Bool, true, false, ◌⊎◌, inl, inr, List, [], ◌∷◌, map, some, take, strstr,
}
use craftsman_console.Dlfn.{
  Symbol, SymbolType, Library, max_symbols, function_of, object_of, is_function_symbol,
  is_object_symbol,
}
use craftsman_console.Dlfn.Symbols.{filter}
use craftsman_console.Dlfn.Open.{
  ProgramHeader, LinkMap, Libc, dt_strtab, dt_symtab, other_tag, find_tables, dlfn_open,
}
use craftsman_console.Dlfn.Sorting.{
  Before, InOrder, IsConsistent, IsQsort, Ascends, function_address, object_address, AllOther,
  IsLibrary, dlfn_open-sorted,
}

-- Insertion, in front of the first element that is not before it.
insert : {A : Type 0} → (A → A → Ordering) → A → List A → List A
insert order x [] = x ∷ []
insert order x (y ∷ ys) = elim (order x y) [
  | Ordering.lt ↦ x ∷ y ∷ ys
  | Ordering.eq ↦ x ∷ y ∷ ys
  | Ordering.gt ↦ y ∷ insert order x ys
]

sort : {A : Type 0} → (A → A → Ordering) → List A → List A
unfolding insert
sort order [] = []
sort order (x ∷ xs) = insert order x (sort order xs)

Ordering-cases : (o : Ordering) → (o ≡ Ordering.lt) ⊎ ((o ≡ Ordering.eq) ⊎ (o ≡ Ordering.gt))
Ordering-cases Ordering.lt = inl refl
Ordering-cases Ordering.eq = inr (inl refl)
Ordering-cases Ordering.gt = inr (inr refl)

lt_not_gt : {o : Ordering} → o ≡ Ordering.lt → o ≢ Ordering.gt
lt_not_gt e f = cc

eq_not_gt : {o : Ordering} → o ≡ Ordering.eq → o ≢ Ordering.gt
eq_not_gt e f = cc

insert-perm :
    {A : Type 0} (order : A → A → Ordering) (x : A) (ys : List A)
    → Perm (insert order x ys) (x ∷ ys)
unfolding insert
insert-perm order x [] = Perm.rfl
insert-perm order x (y ∷ ys) = elim (Ordering-cases (order x y)) [
  | inl e ↦ rw (insert, e) Perm.rfl
  | inr (inl e) ↦ rw (insert, e) Perm.rfl
  | inr (inr e) ↦
      rw (insert, e) (Perm.trans (Perm.cons y (insert-perm order x ys)) (Perm.swap x y ys))
]

sort-perm : {A : Type 0} (order : A → A → Ordering) (xs : List A) → Perm (sort order xs) xs
unfolding sort
sort-perm order [] = Perm.rfl
sort-perm order (x ∷ xs) =
    Perm.trans (insert-perm order x (sort order xs)) (Perm.cons x (sort-perm order xs))

module _ {A : Type 0} (order : A → A → Ordering) (c : IsConsistent order) where
  turned : (x y : A) → order x y ≡ Ordering.gt → Before order y x
  turned x y e = elim (c.total x y) [ inl b ↦ absurd (b e) | inr b ↦ b ]

  insert_after :
      (y x : A) (ys : List A)
      → Before order y x
      → InOrder order (y ∷ ys)
      → InOrder order (insert order x ys)
      → InOrder order (y ∷ insert order x ys)
  unfolding insert
  insert_after y x [] b h i = (b, tt)
  insert_after y x (z ∷ ys) b h i = elim (Ordering-cases (order x z)) [
    | inl e ↦ rw (insert, e) (b, (lt_not_gt e, h.1))
    | inr (inl e) ↦ rw (insert, e) (b, (eq_not_gt e, h.1))
    | inr (inr e) ↦ rw (insert, e) (h.0, rw (insert, e) at i)
  ]

  tail_of : (y : A) (ys : List A) → InOrder order (y ∷ ys) → InOrder order ys
  tail_of y [] h = tt
  tail_of y (z ∷ ys) h = h.1

  insert-InOrder : (x : A) (ys : List A) → InOrder order ys → InOrder order (insert order x ys)
  unfolding insert
  insert-InOrder x [] h = tt
  insert-InOrder x (y ∷ ys) h = elim (Ordering-cases (order x y)) [
    | inl e ↦ rw (insert, e) (lt_not_gt e, h)
    | inr (inl e) ↦ rw (insert, e) (eq_not_gt e, h)
    | inr (inr e) ↦
        rw (insert, e) (insert_after y x ys (turned x y e) h (insert-InOrder x ys (tail_of y ys h)))
  ]

sorter : Libc
sorter = record { qsort = sort }

sorter-IsQsort : IsQsort sorter
unfolding sorter sort
sorter-IsQsort = record { sorted = sort-InOrder; permutes = sort-perm }
  where
    sort-InOrder :
        {A : Type 0} (order : A → A → Ordering) (l : List A)
        → IsConsistent order
        → InOrder order (sort order l)
    sort-InOrder order [] c = tt
    sort-InOrder order (x ∷ xs) c =
        insert-InOrder order c x (sort order xs) (sort-InOrder order xs c)

-- Functions "g" at 80 and "f" at 64, and an object at 96.
abbrev symbol_of : SymbolType → ℕ → ℕ → Symbol
symbol_of type value name = record {
  type = type;
  is_global = true;
  size = 4;
  value = value;
  name = name ∷ [];
  contents = 1 ∷ 0 ∷ 0 ∷ 0 ∷ [];
}

abbrev feature_symbols : List Symbol
feature_symbols =
    symbol_of SymbolType.func 80 b'g'
    ∷ symbol_of SymbolType.object 96 b'o'
    ∷ symbol_of SymbolType.func 64 b'f'
    ∷ []

abbrev phdr_of : Bool → ProgramHeader
phdr_of dynamic = record {
  is_dynamic = dynamic;
  dynamic = other_tag ∷ dt_strtab 5000 ∷ dt_symtab 4500 ∷ [];
}

-- The program "a" and the library "x.so".
abbrev main_map : LinkMap
main_map = record { l_name = b'a' ∷ []; l_addr = 512; headers = []; symbols = λ from upto. [] }

abbrev feature_map : LinkMap
feature_map = record {
  l_name = b'x' ∷ b'.' ∷ b's' ∷ b'o' ∷ [];
  l_addr = 4096;
  headers = phdr_of false ∷ phdr_of true ∷ phdr_of false ∷ [];
  symbols = λ from upto. feature_symbols;
}

abbrev closed : Library
closed = record {
  dlname = b'x' ∷ b'.' ∷ b's' ∷ b'o' ∷ [];
  dlhandle = false;
  functions = [];
  objects = [];
}

feature-IsLibrary : IsLibrary feature_map 5000 4500
unfolding find_tables
feature-IsLibrary = record {
  headers_before = phdr_of false ∷ [];
  phdr = phdr_of true;
  headers_after = phdr_of false ∷ [];
  headers = refl;
  dynamic = refl;
  none_after = (refl, tt);
  tables = refl;
  has_symbols = refl;
}

main-AllOther : AllOther closed.dlname (main_map ∷ [])
unfolding strstr
main-AllOther = (refl, tt)

feature_named : strstr feature_map.l_name closed.dlname ≡ true
unfolding strstr
feature_named = refl

open_feature :
    (lib' : Library) × (dlfn_open sorter true (some (main_map ∷ feature_map ∷ [])) closed
      ≡ (true, lib'))
    × (lib'.dlhandle ≡ true)
    × Ascends function_address lib'.functions
    × Perm lib'.functions
        (take max_symbols (map (function_of 4096) (filter is_function_symbol feature_symbols)))
    × Ascends object_address lib'.objects
    × Perm lib'.objects
        (take max_symbols (map (object_of 4096) (filter is_object_symbol feature_symbols)))
open_feature =
    dlfn_open-sorted sorter closed (main_map ∷ []) [] feature_map 5000 4500 sorter-IsQsort refl refl
      main-AllOther feature_named tt feature-IsLibrary
