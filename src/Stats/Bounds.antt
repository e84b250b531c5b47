-- ===== src/Stats/Bounds.antt =====
-- What stats.c's stats_add keeps of a series of samples.
use craftsman_console.Base.{
  ℕ, ◌+◌, ◌<◌, ◌^◌, ◌≡◌, refl, subst, ap, sym, ◌∙◌, ◌⊎◌, inl, inr, List, [], ◌∷◌, arith, length,
}
use craftsman_console.Stats.{
  Arithmetic, Stats, stats_count, stats_min, stats_max, all_ones, stats_init, stats_add,
}

-- What is relied on of the machine's `double`: the patterns that are numbers, which conversions give, are
-- ordered, fmin and fmax select from two of them, and counting by one is exact below 2 ^ 53.
pub record IsOrdered (fp : Arithmetic) (is_number : ℕ → Type 0) (is_le : ℕ → ℕ → Type 0)
    : Type 0 where
  pub rounds : (n : ℕ) → is_number (fp.round n)
  pub reflexive : (x : ℕ) → is_number x → is_le x x
  pub transitive : (x y z : ℕ) → is_le x y → is_le y z → is_le x z
  pub fmin_le :
      (x y : ℕ) → is_number x → is_number y → is_le (fp.fmin x y) x × is_le (fp.fmin x y) y
  pub fmin_of : (x y : ℕ) → is_number x → is_number y → (fp.fmin x y ≡ x) ⊎ (fp.fmin x y ≡ y)
  pub le_fmax :
      (x y : ℕ) → is_number x → is_number y → is_le x (fp.fmax x y) × is_le y (fp.fmax x y)
  pub fmax_of : (x y : ℕ) → is_number x → is_number y → (fp.fmax x y ≡ x) ⊎ (fp.fmax x y ≡ y)
  pub count : (n : ℕ) → n < 2 ^ 53 → fp.add (fp.round n) (fp.round 1) ≡ fp.round (n + 1)

-- The calls for a series, the last sample first.
abbrev pub add_all : Arithmetic → List ℕ → Stats
add_all fp [] = stats_init fp
add_all fp (x ∷ xs) = stats_add fp x (add_all fp xs)

abbrev pub AllBetween : (ℕ → ℕ → Type 0) → ℕ → ℕ → List ℕ → Type 0
AllBetween is_le low high [] = Unit
AllBetween is_le low high (x ∷ xs) = is_le low x × is_le x high × AllBetween is_le low high xs

abbrev pub IsSample : ℕ → List ℕ → Type 0
IsSample x [] = ⊥
IsSample x (y ∷ xs) = (x ≡ y) ⊎ IsSample x xs

abbrev pub AllNumbers : (ℕ → Type 0) → List ℕ → Type 0
AllNumbers is_number [] = Unit
AllNumbers is_number (x ∷ xs) = is_number x × AllNumbers is_number xs

module _ (fp : Arithmetic) (is_number : ℕ → Type 0) (is_le : ℕ → ℕ → Type 0)
    (o : IsOrdered fp is_number is_le) where
  AllBetween-wider :
      (low low' high high' : ℕ) (xs : List ℕ)
      → is_le low' low
      → is_le high high'
      → AllBetween is_le low high xs
      → AllBetween is_le low' high' xs
  AllBetween-wider low low' high high' [] l h a = tt
  AllBetween-wider low low' high high' (x ∷ xs) l h a = (
    o.transitive low' low x l a.0,
    o.transitive x high high' a.1 h,
    AllBetween-wider low low' high high' xs l h a.2,
  )

  count_all :
      (xs : List ℕ) → length xs < 2 ^ 53 → stats_count (add_all fp xs) ≡ fp.round (length xs)
  unfolding stats_count stats_add stats_init
  count_all [] few = refl
  count_all (x ∷ xs) few =
      ap (λ n. fp.add n (fp.round 1)) (count_all xs (omega (arith, few)))
      ∙ o.count (length xs) (omega (arith, few))
      ∙ ap fp.round (omega arith)

  min_number : (xs : List ℕ) → AllNumbers is_number xs → is_number (add_all fp xs).min_sample
  unfolding stats_add stats_init
  min_number [] n = o.rounds all_ones
  min_number (x ∷ xs) n =
      let old = min_number xs n.1 in
      elim (o.fmin_of x (add_all fp xs).min_sample n.0 old) [
        | inl e ↦ subst is_number (sym e) n.0
        | inr e ↦ subst is_number (sym e) old
      ]

  max_number : (xs : List ℕ) → AllNumbers is_number xs → is_number (add_all fp xs).max_sample
  unfolding stats_add stats_init
  max_number [] n = o.rounds 0
  max_number (x ∷ xs) n =
      let old = max_number xs n.1 in
      elim (o.fmax_of x (add_all fp xs).max_sample n.0 old) [
        | inl e ↦ subst is_number (sym e) n.0
        | inr e ↦ subst is_number (sym e) old
      ]

  between_all :
      (xs : List ℕ)
      → AllNumbers is_number xs
      → AllBetween is_le (stats_min (add_all fp xs)) (stats_max (add_all fp xs)) xs
  unfolding stats_min stats_max stats_add
  between_all [] n = tt
  between_all (x ∷ xs) n =
      let (min_x, min_old) = o.fmin_le x (add_all fp xs).min_sample n.0 (min_number xs n.1) in
      let (max_x, max_old) = o.le_fmax x (add_all fp xs).max_sample n.0 (max_number xs n.1) in
      (min_x, max_x, AllBetween-wider _ _ _ _ xs min_old max_old (between_all xs n.1))

  min_of :
      (xs : List ℕ)
      → AllNumbers is_number xs
      → (stats_min (add_all fp xs) ≡ fp.round all_ones) ⊎ IsSample (stats_min (add_all fp xs)) xs
  unfolding stats_min stats_add stats_init
  min_of [] n = inl refl
  min_of (x ∷ xs) n = elim (o.fmin_of x (add_all fp xs).min_sample n.0 (min_number xs n.1)) [
    | inl e ↦ inr (inl e)
    | inr e ↦ elim (min_of xs n.1) [
      | inl old ↦ inl (e ∙ old)
      | inr sample ↦ inr (inr (subst (λ m. IsSample m xs) (sym e) sample))
    ]
  ]

  min_stays :
      (xs : List ℕ)
      → AllNumbers is_number xs
      → is_le (stats_min (add_all fp xs)) (fp.round all_ones)
  unfolding stats_min stats_add stats_init
  min_stays [] n = o.reflexive (fp.round all_ones) (o.rounds all_ones)
  min_stays (x ∷ xs) n =
      o.transitive _ _ _ (o.fmin_le x (add_all fp xs).min_sample n.0 (min_number xs n.1)).1
        (min_stays xs n.1)

  max_stays :
      (xs : List ℕ) → AllNumbers is_number xs → is_le (fp.round 0) (stats_max (add_all fp xs))
  unfolding stats_max stats_add stats_init
  max_stays [] n = o.reflexive (fp.round 0) (o.rounds 0)
  max_stays (x ∷ xs) n =
      o.transitive _ _ _ (max_stays xs n.1)
        (o.le_fmax x (add_all fp xs).max_sample n.0 (max_number xs n.1)).1

  max_of :
      (xs : List ℕ)
      → AllNumbers is_number xs
      → (stats_max (add_all fp xs) ≡ fp.round 0) ⊎ IsSample (stats_max (add_all fp xs)) xs
  unfolding stats_max stats_add stats_init
  max_of [] n = inl refl
  max_of (x ∷ xs) n = elim (o.fmax_of x (add_all fp xs).max_sample n.0 (max_number xs n.1)) [
    | inl e ↦ inr (inl e)
    | inr e ↦ elim (max_of xs n.1) [
      | inl old ↦ inl (e ∙ old)
      | inr sample ↦ inr (inr (subst (λ m. IsSample m xs) (sym e) sample))
    ]
  ]

-- After samples that are numbers are added, fewer than 2 ^ 53 of them, the count is theirs, and each is
-- between the least and the greatest. The least is a sample or what it begins with, 2 ^ 32 - 1, and never above
-- that; the greatest is a sample or 0, and never below 0.
pub stats_add-bounds :
    (fp : Arithmetic) (is_number : ℕ → Type 0) (is_le : ℕ → ℕ → Type 0) (xs : List ℕ)
    → IsOrdered fp is_number is_le
    → AllNumbers is_number xs
    → length xs < 2 ^ 53
    → (stats_count (add_all fp xs) ≡ fp.round (length xs))
      × AllBetween is_le (stats_min (add_all fp xs)) (stats_max (add_all fp xs)) xs
      × ((stats_min (add_all fp xs) ≡ fp.round all_ones) ⊎ IsSample (stats_min (add_all fp xs)) xs)
      × ((stats_max (add_all fp xs) ≡ fp.round 0) ⊎ IsSample (stats_max (add_all fp xs)) xs)
      × is_le (stats_min (add_all fp xs)) (fp.round all_ones)
      × is_le (fp.round 0) (stats_max (add_all fp xs))
stats_add-bounds fp is_number is_le xs o n few = (
  count_all fp is_number is_le o xs few,
  between_all fp is_number is_le o xs n,
  min_of fp is_number is_le o xs n,
  max_of fp is_number is_le o xs n,
  min_stays fp is_number is_le o xs n,
  max_stays fp is_number is_le o xs n,
)
