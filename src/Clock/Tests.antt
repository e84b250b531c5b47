-- ===== src/Clock/Tests.antt =====
-- The theorems on platform_clock.c at concrete readings of the clocks.
use mathlib.Core.List.{Perm}
use craftsman_console.Base.{
  refl, ℕ, List, [], ◌∷◌, some, get_or, length, ◌+◌, ◌-◌, ◌%◌, ◌^◌, ◌≡◌, true, false, arith,
}
use craftsman_console.Clock.{TscClock, tscdelta_to_usec, clock_sync}
use craftsman_console.Clock.Samples.{max_samples, wait_ms, take_samples, tsc_per_usec}
use craftsman_console.Clock.Sorting.{IsAscending}
use craftsman_console.Clock.Median.{tsc_per_usec-median}
use craftsman_console.Clock.Pace.{due, clock_sync_lem}

-- A thousand ticks for a microsecond, and 16 of these for a frame, at 100 ticks before the wrap.
abbrev pub near_wrap : TscClock
near_wrap = record {
  median_tsc_per_usec = 1000;
  median_usec_per_tsc = 8589934;
  tsc_step = 16000;
  jerk = 0;
  tsc_clock = 18446744073709551516;
  frame_to_frame_tsc = 18446744073709551516;
}

sync_near_wrap :
    (clock_sync ((due near_wrap - 5000) % 2 ^ 64) 0 near_wrap
      ≡ (false, tscdelta_to_usec near_wrap 5000, near_wrap))
    × (clock_sync ((due near_wrap + 20000) % 2 ^ 64) 0 near_wrap
        ≡ (true, 0, record near_wrap { tsc_clock = 35900; jerk = 1; frame_to_frame_tsc = 35900 }))
sync_near_wrap =
    clock_sync_lem near_wrap 0 5000 20000 (omega arith) (omega arith) (omega arith) (omega arith)
      (omega arith)

-- `clock()` ticks by a thousand, and the counter by a step less in each round.
abbrev tick_clocks : List ℕ
tick_clocks = 500 ∷ 1000 ∷ 2000 ∷ 3000 ∷ 4000 ∷ 5000 ∷ 6000 ∷ 7000 ∷ 8000 ∷ 9000 ∷ 10000 ∷ []

abbrev counters : List ℕ
counters = 10 ∷ 19 ∷ 27 ∷ 34 ∷ 40 ∷ 45 ∷ 49 ∷ 52 ∷ 54 ∷ 55 ∷ []

abbrev ticks : List ℕ
ticks = 10 ∷ 9 ∷ 8 ∷ 7 ∷ 6 ∷ 5 ∷ 4 ∷ 3 ∷ 2 ∷ 1 ∷ []

taken : take_samples (λ a b. a) 1000 max_samples 0 0 tick_clocks counters ≡ some ticks
unfolding take_samples wait_ms
taken = refl

measure_ticks :
    (sorted : List ℕ) × (tsc_per_usec (λ a b. a) 1000 0 0 tick_clocks counters
      ≡ some (get_or sorted 5 0))
    × IsAscending sorted
    × Perm sorted ticks
    × (length sorted ≡ max_samples)
measure_ticks = tsc_per_usec-median (λ a b. a) 1000 0 0 tick_clocks counters ticks taken
