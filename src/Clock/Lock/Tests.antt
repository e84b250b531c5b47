-- ===== src/Clock/Lock/Tests.antt =====
-- Two threads at the lock of platform_clock.c's `__tsc_per_usec`.
use craftsman_console.Base.{ℕ, ◌≡◌, refl, List, [], ◌∷◌, arith}
use craftsman_console.Clock.Lock.{
  Phase, outside, drawing, waiting, measuring, put, next_access, step_thread, run_schedule,
  unlocked,
}
use craftsman_console.Clock.Lock.Tickets.{put_each, Holds, IsUndivided}
use craftsman_console.Clock.Lock.Exclusion.{run_schedule-exclusive, run_schedule-served}

-- Where both read `lock_id` before either writes it, both draw the same ticket, and both measure.
draw_same :
    ((run_schedule (0 ∷ 1 ∷ 0 ∷ 1 ∷ 0 ∷ 1 ∷ []) unlocked).threads 0 ≡ measuring 0)
    × ((run_schedule (0 ∷ 1 ∷ 0 ∷ 1 ∷ 0 ∷ 1 ∷ []) unlocked).threads 1 ≡ measuring 0)
unfolding run_schedule step_thread next_access
draw_same = (refl, refl)

-- Thread 0 draws a ticket, then thread 1, and then thread 0 goes on.
abbrev in_turn : List ℕ
in_turn = 0 ∷ 0 ∷ 1 ∷ 1 ∷ 0 ∷ []

abbrev DrawsOnly : ℕ → ℕ → Phase → Type 0
DrawsOnly i j phase = (n : ℕ) → phase ≡ drawing n → j ≡ i

none_draws : (i j n : ℕ) → outside ≡ drawing n → j ≡ i
none_draws i j n e = absurd (outside_drawing n e)
  where
    outside_drawing : (m : ℕ) → outside ≡ drawing m → ⊥
    outside_drawing m e' = cc

waits_only : (i k m : ℕ) → DrawsOnly i k (waiting m)
waits_only i k m n e = absurd (waiting_drawing n e)
  where
    waiting_drawing : (p : ℕ) → waiting m ≡ drawing p → ⊥
    waiting_drawing p e' = cc

-- What thread `k` has done is no matter, once it waits.
over :
    (i k m : ℕ) (phase : Phase) (f : ℕ → Phase)
    → ((j : ℕ) → (k ≡ j → ⊥) → DrawsOnly i j (f j))
    → (j : ℕ) → DrawsOnly i j (put k (waiting m) (put k phase f) j)
over i k m phase f others =
    put_each (DrawsOnly i) k (waiting m) (put k phase f) (waits_only i k m) (
      put_each (λ j p. (k ≡ j → ⊥) → DrawsOnly i j p) k phase f (λ same. absurd (same refl))
        (λ j apart again. others j apart))

one_waits : (i : ℕ) (j : ℕ) → DrawsOnly i j (put 0 (waiting 0) (put 0 (drawing 0) (λ j. outside)) j)
one_waits i = over i 0 0 (drawing 0) (λ j. outside) (λ j other. none_draws i j)

in_turn-IsUndivided : IsUndivided in_turn unlocked
unfolding step_thread next_access
in_turn-IsUndivided = (
  none_draws 0,
  (
    put_each (DrawsOnly 0) 0 (drawing 0) (λ j. outside) (λ n e. refl) (λ j other. none_draws 0 j),
    (
      one_waits 1,
      (
        put_each (DrawsOnly 1) 1 (drawing 1) _ (λ n e. refl) (λ j other. one_waits 1 j),
        (over 0 1 1 (drawing 1) _ (λ j other. one_waits 0 j), tt),
      ),
    ),
  ),
)

measure_alone : ◌≡◌ {A = ℕ} 0 0
unfolding run_schedule step_thread next_access
measure_alone = run_schedule-exclusive in_turn 0 0 in_turn-IsUndivided (omega arith) tt tt

first_served :
    (j : ℕ) × Holds
      (run_schedule in_turn unlocked).running_thread
      ((run_schedule in_turn unlocked).threads j)
unfolding run_schedule step_thread next_access
first_served = run_schedule-served in_turn 1 1 in_turn-IsUndivided (omega arith) refl
