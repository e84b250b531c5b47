-- ===== src/Clock/Median.antt =====
-- The measurement of platform_clock.c returns the median of its samples.
use mathlib.Core.List.{Perm}
use craftsman_console.Base.{
  ℕ, zero, suc, ◌≡◌, ◌∙◌, inl, inr, List, [], ◌∷◌, some, Option-cases, arith, length, get_or,
}
use craftsman_console.Clock.Samples.{
  max_samples, insertion_sort, wait_ms, take_samples, tsc_per_usec,
}
use craftsman_console.Clock.Sorting.{IsAscending, insertion_sort-IsAscending, length-insertion_sort}

length-take_samples :
    (scaled : ℕ → ℕ → ℕ) (clocks_per_ms left c rc : ℕ) (clocks tscs : List ℕ) {samples : List ℕ}
    → take_samples scaled clocks_per_ms left c rc clocks tscs ≡ some samples
    → length samples ≡ left
unfolding take_samples
length-take_samples scaled clocks_per_ms zero c rc clocks tscs e = ground arith
length-take_samples scaled clocks_per_ms (suc left) c rc clocks [] e = cc
length-take_samples scaled clocks_per_ms (suc left) c rc clocks (tsc ∷ tscs) {samples} e =
    elim (Option-cases (wait_ms clocks_per_ms c clocks)) [
      | inl waits ↦ cc (rw (waits, take_samples) at e)
      | inr (now, reached) ↦
          elim (Option-cases (take_samples scaled clocks_per_ms left now.0 tsc now.1 tscs)) [
            | inl short ↦ cc (rw (reached, take_samples, short) at e)
            | inr (later, rest) ↦
                let sampled = rw (reached, take_samples, rest) at e in
                let n = length-take_samples scaled clocks_per_ms left now.0 tsc now.1 tscs rest in
                ground arith
          ]
    ]

-- Where the readings give all the samples, `__tsc_per_usec` returns the one that stands at the sixth
-- place of the ten when they are put in order.
pub tsc_per_usec-median :
    (scaled : ℕ → ℕ → ℕ) (clocks_per_ms c rc : ℕ) (clocks tscs samples : List ℕ)
    → take_samples scaled clocks_per_ms max_samples c rc clocks tscs ≡ some samples
    → (sorted : List ℕ) × (tsc_per_usec scaled clocks_per_ms c rc clocks tscs
        ≡ some (get_or sorted 5 0))
      × IsAscending sorted
      × Perm sorted samples
      × (length sorted ≡ max_samples)
unfolding tsc_per_usec
tsc_per_usec-median scaled clocks_per_ms c rc clocks tscs samples e =
    let (ascending, same) = insertion_sort-IsAscending samples in
    (
      insertion_sort samples,
      rw e,
      ascending,
      same,
      length-insertion_sort samples
          ∙ length-take_samples scaled clocks_per_ms max_samples c rc clocks tscs e,
    )
