-- ===== src/Clock/Sorting.antt =====
-- What platform_clock.c's insertion sort does with its samples.
use mathlib.Core.List.{Perm, perm_middle}
use mathlib.Core.List.Perm
use craftsman_console.Base.{
  ℕ, zero, suc, ◌+◌, ◌-◌, ◌≤◌, ◌≡◌, refl, ap, ap₂, sym, ◌∙◌, inl, inr, Bool-cases, true, false,
  List, [], ◌∷◌, ◌++◌, append-nil, arith, leb, if◌then◌else◌, length, length-set, get_or, set,
}
use craftsman_console.Clock.Samples.{exchange, sink, sort_from, insertion_sort}

-- Neighbours are in order, upwards and downwards.
abbrev pub IsAscending : List ℕ → Type 0
IsAscending [] = Unit
IsAscending (x ∷ []) = Unit
IsAscending (x ∷ y ∷ l) = (x ≤ y) × IsAscending (y ∷ l)

abbrev IsDescending : List ℕ → Type 0
IsDescending [] = Unit
IsDescending (x ∷ []) = Unit
IsDescending (x ∷ y ∷ l) = (y ≤ x) × IsDescending (y ∷ l)

-- The array at a round: what is sorted, from its end, and the rest.
abbrev rev_append : List ℕ → List ℕ → List ℕ
rev_append [] ys = ys
rev_append (x ∷ xs) ys = rev_append xs (x ∷ ys)

get_or-rev_append :
    (xs ys : List ℕ) (i j : ℕ) → i ≡ length xs + j → get_or (rev_append xs ys) i 0 ≡ get_or ys j 0
get_or-rev_append [] ys i j e = ap (λ k. get_or ys k 0) (omega arith)
get_or-rev_append (x ∷ xs) ys i j e = get_or-rev_append xs (x ∷ ys) i (suc j) (omega arith)

set-rev_append :
    (xs ys : List ℕ) (i j v : ℕ)
    → i ≡ length xs + j
    → set (rev_append xs ys) i v ≡ rev_append xs (set ys j v)
set-rev_append [] ys i j v e = ap (λ k. set ys k v) (omega arith)
set-rev_append (x ∷ xs) ys i j v e = set-rev_append xs (x ∷ ys) i (suc j) v (omega arith)

exchange-rev_append :
    (xs : List ℕ) (y x : ℕ) (rest : List ℕ)
    → exchange (length xs) (rev_append xs (y ∷ x ∷ rest)) ≡ rev_append xs (x ∷ y ∷ rest)
unfolding exchange
exchange-rev_append xs y x rest = rw (
  get_or-rev_append xs (y ∷ x ∷ rest) (length xs) 0 (omega arith),
  get_or-rev_append xs (y ∷ x ∷ rest) (suc (length xs)) 1 (omega arith),
  set-rev_append xs (y ∷ x ∷ rest) (length xs) 0 x (omega arith),
  set-rev_append xs (x ∷ x ∷ rest) (suc (length xs)) 1 y (omega arith),
)

-- One round as an insertion into the sorted part.
insert_down : ℕ → List ℕ → List ℕ
insert_down x [] = x ∷ []
insert_down x (y ∷ ys) = let rest = insert_down x ys in if leb y x then x ∷ y ∷ ys else y ∷ rest

sink_stop :
    (j : ℕ) (a : List ℕ) → leb (get_or a j 0) (get_or a (suc j) 0) ≡ true → sink (suc j) a ≡ a
unfolding sink
sink_stop j a e = rw (e, sink)

sink_swap :
    (j : ℕ) (a : List ℕ)
    → leb (get_or a j 0) (get_or a (suc j) 0) ≡ false
    → sink (suc j) a ≡ sink j (exchange j a)
unfolding sink
sink_swap j a e = rw (e, sink)

-- the test of a round
tested :
    (xs : List ℕ) (y x : ℕ) (rest : List ℕ)
    → leb
        (get_or (rev_append (y ∷ xs) (x ∷ rest)) (length xs) 0)
        (get_or (rev_append (y ∷ xs) (x ∷ rest)) (suc (length xs)) 0)
      ≡ leb y x
tested xs y x rest =
    ap₂ leb (get_or-rev_append xs (y ∷ x ∷ rest) (length xs) 0 (omega arith))
      (get_or-rev_append xs (y ∷ x ∷ rest) (suc (length xs)) 1 (omega arith))

sink_lem :
    (xs : List ℕ) (x : ℕ) (rest : List ℕ)
    → sink (length xs) (rev_append xs (x ∷ rest)) ≡ rev_append (insert_down x xs) rest
unfolding insert_down
sink_lem [] x rest = unfold sink in refl
sink_lem (y ∷ xs) x rest = elim (Bool-cases (leb y x)) [
  | inl e ↦ rw e (sink_stop (length xs) (rev_append (y ∷ xs) (x ∷ rest)) (tested xs y x rest ∙ e))
  | inr e ↦ rw e (
      sink_swap (length xs) (rev_append (y ∷ xs) (x ∷ rest)) (tested xs y x rest ∙ e)
      ∙ ap (sink (length xs)) (exchange-rev_append xs y x rest)
      ∙ sink_lem xs x (y ∷ rest))
]

insert_all : List ℕ → List ℕ → List ℕ
insert_all xs [] = xs
insert_all xs (x ∷ rest) = insert_all (insert_down x xs) rest

length-insert_down : (x : ℕ) (xs : List ℕ) → length (insert_down x xs) ≡ suc (length xs)
unfolding insert_down
length-insert_down x [] = refl
length-insert_down x (y ∷ ys) = ground (arith, length-insert_down x ys)

sort_from_lem :
    (rest xs : List ℕ)
    → sort_from (length rest) (length xs) (rev_append xs rest) ≡ rev_append (insert_all xs rest) []
unfolding sort_from insert_all
sort_from_lem [] xs = refl
sort_from_lem (x ∷ rest) xs =
    rw (sort_from, sink_lem xs x rest)
      (ap (λ n. sort_from (length rest) n (rev_append (insert_down x xs) rest))
          (sym (length-insert_down x xs))
        ∙ sort_from_lem rest (insert_down x xs))

insert_down-IsDescending : (x : ℕ) (xs : List ℕ) → IsDescending xs → IsDescending (insert_down x xs)
unfolding insert_down
insert_down-IsDescending x [] d = tt
insert_down-IsDescending x (y ∷ []) d = ground arith
insert_down-IsDescending x (y ∷ z ∷ ys) d = ground (arith, insert_down-IsDescending x (z ∷ ys))

insert_down-perm : (x : ℕ) (xs : List ℕ) → Perm (insert_down x xs) (x ∷ xs)
unfolding insert_down
insert_down-perm x [] = Perm.rfl
insert_down-perm x (y ∷ ys) = elim (Bool-cases (leb y x)) [
  | inl e ↦ rw e Perm.rfl
  | inr e ↦ rw e (Perm.trans (Perm.cons y (insert_down-perm x ys)) (Perm.swap x y ys))
]

insert_all-IsDescending : (xs rest : List ℕ) → IsDescending xs → IsDescending (insert_all xs rest)
unfolding insert_all
insert_all-IsDescending xs [] d = d
insert_all-IsDescending xs (x ∷ rest) d =
    insert_all-IsDescending (insert_down x xs) rest (insert_down-IsDescending x xs d)

insert_all-perm : (xs rest : List ℕ) → Perm (insert_all xs rest) (xs ++ rest)
unfolding insert_all
insert_all-perm xs [] = rw append-nil Perm.rfl
insert_all-perm xs (x ∷ rest) =
    Perm.trans (insert_all-perm (insert_down x xs) rest) (
      Perm.trans (Perm.append_right rest (insert_down-perm x xs)) (Perm.symm (perm_middle xs rest)))

rev_append-perm : (xs ys : List ℕ) → Perm (rev_append xs ys) (xs ++ ys)
rev_append-perm [] ys = Perm.refl ys
rev_append-perm (x ∷ xs) ys = Perm.trans (rev_append-perm xs (x ∷ ys)) (perm_middle xs ys)

rev_append-IsAscending :
    (x : ℕ) (xs ys : List ℕ)
    → IsDescending (x ∷ xs)
    → IsAscending (x ∷ ys)
    → IsAscending (rev_append (x ∷ xs) ys)
rev_append-IsAscending x [] ys d a = a
rev_append-IsAscending x (z ∷ xs) ys d a = rev_append-IsAscending z xs (x ∷ ys) d.1 (d.0, a)

reversed-IsAscending : (xs : List ℕ) → IsDescending xs → IsAscending (rev_append xs [])
reversed-IsAscending [] d = tt
reversed-IsAscending (x ∷ xs) d = rev_append-IsAscending x xs [] d tt

length-sink : (j : ℕ) (a : List ℕ) → length (sink j a) ≡ length a
unfolding sink exchange
length-sink zero a = refl
length-sink (suc j) a = ground (
  arith,
  length-sink j (exchange j a),
  length-set (set a j (get_or a (suc j) 0)) (suc j) (get_or a j 0),
  length-set a j (get_or a (suc j) 0),
)

length-sort_from : (left i : ℕ) (a : List ℕ) → length (sort_from left i a) ≡ length a
unfolding sort_from
length-sort_from zero i a = refl
length-sort_from (suc left) i a = length-sort_from left (suc i) (sink i a) ∙ length-sink i a

pub length-insertion_sort : (a : List ℕ) → length (insertion_sort a) ≡ length a
unfolding insertion_sort
length-insertion_sort a = length-sort_from (length a - 1) 1 a

-- The samples are put in order: the array after the sort is ascending, and has the values it had, as
-- often as before.
pub insertion_sort-IsAscending :
    (a : List ℕ) → IsAscending (insertion_sort a) × Perm (insertion_sort a) a
unfolding insertion_sort sort_from
insertion_sort-IsAscending [] = (tt, Perm.rfl)
insertion_sort-IsAscending (x ∷ rest) =
    let rounds : length (x ∷ rest) - 1 ≡ length rest = omega arith in
    let e : insertion_sort (x ∷ rest) ≡ rev_append (insert_all (x ∷ []) rest) [] =
      ap (λ n. sort_from n 1 (x ∷ rest)) rounds ∙ sort_from_lem rest (x ∷ []) in
    let sorted = insert_all-IsDescending (x ∷ []) rest tt in
    rw e (
      reversed-IsAscending (insert_all (x ∷ []) rest) sorted,
      Perm.trans (rw append-nil at (rev_append-perm (insert_all (x ∷ []) rest) []))
          (insert_all-perm (x ∷ []) rest),
    )
