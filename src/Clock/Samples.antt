-- ===== src/Clock/Samples.antt =====
-- The measurement of platform_clock.c's `__tsc_per_usec`: samples are taken, sorted in place, and the
-- one in the middle is returned. The lock around it is in Clock.Lock.
use craftsman_console.Base.{
  ℕ, zero, suc, ◌-◌, ◌/◌, true, false, List, [], ◌∷◌, Option, none, some, ltb, leb, length, get_or,
  set,
}
use craftsman_console.Clock.{sub_u64}

abbrev pub max_samples : ℕ
max_samples = 10

-- `clock()` is read until it is `clocks_per_ms` past `p`: the value then, and the readings left.
-- `none`: the readings end before that.
unfoldable pub wait_ms : ℕ → ℕ → List ℕ → Option (ℕ × List ℕ)
wait_ms clocks_per_ms p [] = none
wait_ms clocks_per_ms p (c ∷ readings) = elim (ltb (c - p) clocks_per_ms) [
  | true ↦ wait_ms clocks_per_ms p readings
  | false ↦ some (c, readings)
]

-- The loop that takes `left` samples, from the last readings `c` and `rc` of the two clocks. `scaled` is
-- the product of a difference of the counter and one of `clock()`, in `float` and cut off to an
-- integer.
unfoldable pub take_samples : (ℕ → ℕ → ℕ) → ℕ → ℕ → ℕ → ℕ → List ℕ → List ℕ → Option (List ℕ)
unfolding wait_ms
take_samples scaled clocks_per_ms zero c rc clocks tscs = some []
take_samples scaled clocks_per_ms (suc left) c rc clocks [] = none
take_samples scaled clocks_per_ms (suc left) c rc clocks (tsc ∷ tscs) =
    elim (wait_ms clocks_per_ms c clocks) [
      | none ↦ none
      | some (c', clocks') ↦ elim (take_samples scaled clocks_per_ms left c' tsc clocks' tscs) [
        | none ↦ none
        | some samples ↦ some (scaled (sub_u64 tsc rc) (c' - c) ∷ samples)
      ]
    ]

-- `a[j]` and `a[j + 1]` trade places.
unfoldable pub exchange : ℕ → List ℕ → List ℕ
exchange j a = set (set a j (get_or a (suc j) 0)) (suc j) (get_or a j 0)

-- The inner loop of the sort, at `j`.
unfoldable pub sink : ℕ → List ℕ → List ℕ
unfolding exchange
sink zero a = a
sink (suc j) a = elim (leb (get_or a j 0) (get_or a (suc j) 0)) [
  | true ↦ a
  | false ↦ sink j (exchange j a)
]

-- The outer loop at `i`, with `left` rounds left.
unfoldable pub sort_from : ℕ → ℕ → List ℕ → List ℕ
unfolding sink
sort_from zero i a = a
sort_from (suc left) i a = sort_from left (suc i) (sink i a)

unfoldable pub insertion_sort : List ℕ → List ℕ
unfolding sort_from
insertion_sort a = sort_from (length a - 1) 1 a

-- The first readings of the two clocks, then those of the loop.
unfoldable pub tsc_per_usec : (ℕ → ℕ → ℕ) → ℕ → ℕ → ℕ → List ℕ → List ℕ → Option ℕ
unfolding take_samples insertion_sort
tsc_per_usec scaled clocks_per_ms c rc clocks tscs =
    elim (take_samples scaled clocks_per_ms max_samples c rc clocks tscs) [
      | none ↦ none
      | some samples ↦ some (get_or (insertion_sort samples) (max_samples / 2) 0)
    ]
