-- ===== src/Clock/Lock/Exclusion.antt =====
-- One thread at a time measures behind the lock of platform_clock.c's `__tsc_per_usec`, and one can go on.
use craftsman_console.Base.{
  ℕ, ◌+◌, ◌^◌, ◌<◌, ◌≡◌, refl, sym, subst, ◌∙◌, ap, List, [], ◌∷◌, arith, length,
}
use craftsman_console.Clock.Lock.{
  Phase, outside, drawing, waiting, measuring, handing, Lock, step_thread, run_schedule, unlocked,
}
use craftsman_console.Clock.Lock.Fair.{next_access-IsFair}
use craftsman_console.Clock.Lock.Tickets.{Holds, IsInside, IsUndivided, Sound, IsFair}

unlocked-IsFair : IsFair (λ n. 0) unlocked
unlocked-IsFair = record {
  sound = λ j. tt;
  serves = λ j n owned due below. absurd (omega (arith, below));
  in_order = omega arith;
}

run_schedule-IsFair :
    (schedule : List ℕ) (owner : ℕ → ℕ) (l : Lock)
    → IsFair owner l
    → IsUndivided schedule l
    → l.lock_id + length schedule < 2 ^ 64
    → (last : ℕ → ℕ) × IsFair last (run_schedule schedule l)
unfolding run_schedule step_thread
run_schedule-IsFair [] owner l f u few = (owner, f)
run_schedule-IsFair (i ∷ schedule) owner l f (alone, u) few =
    let (next, fair, grown) =
      next_access-IsFair owner i l f (l.threads i) refl alone (omega (arith, few)) in
    run_schedule-IsFair schedule next (step_thread i l) fair u (omega (arith, grown, few))

inside_lem :
    (owner : ℕ → ℕ) (l : Lock) (j : ℕ) (phase : Phase)
    → Sound owner l.lock_id l.running_thread j phase
    → IsInside phase
    → owner l.running_thread ≡ j
inside_lem owner l j outside s h = absurd h
inside_lem owner l j (drawing n) s h = absurd h
inside_lem owner l j (waiting n) s h = absurd h
inside_lem owner l j (measuring n) (d, now) h = ap owner (sym now) ∙ d.owned
inside_lem owner l j (handing n r) (d, now, read) h = ap owner (sym now) ∙ d.owned

-- However the threads' accesses come one after the other, fewer than 2 ^ 64 in all: no two threads are
-- behind the wait and before the end of the last `++` at once, if a thread that has read `lock_id`
-- writes it before any other accesses the lock.
pub run_schedule-exclusive :
    (schedule : List ℕ) (i j : ℕ)
    → IsUndivided schedule unlocked
    → length schedule < 2 ^ 64
    → IsInside ((run_schedule schedule unlocked).threads i)
    → IsInside ((run_schedule schedule unlocked).threads j)
    → i ≡ j
run_schedule-exclusive schedule i j u few in_i in_j =
    let (owner, f) =
      run_schedule-IsFair schedule (λ n. 0) unlocked unlocked-IsFair u (omega (arith, few)) in
    let l = run_schedule schedule unlocked in
    sym (inside_lem owner l i (l.threads i) (f.sound i) in_i)
    ∙ inside_lem owner l j (l.threads j) (f.sound j) in_j

-- In such a schedule, where a thread waits there is one that does not wait in vain: some thread holds the
-- ticket that is served.
pub run_schedule-served :
    (schedule : List ℕ) (i n : ℕ)
    → IsUndivided schedule unlocked
    → length schedule < 2 ^ 64
    → (run_schedule schedule unlocked).threads i ≡ waiting n
    → (j : ℕ) × Holds
        (run_schedule schedule unlocked).running_thread
        ((run_schedule schedule unlocked).threads j)
run_schedule-served schedule i n u few waits =
    let (owner, f) =
      run_schedule-IsFair schedule (λ n. 0) unlocked unlocked-IsFair u (omega (arith, few)) in
    let l = run_schedule schedule unlocked in
    let d = subst (Sound owner l.lock_id l.running_thread i) waits (f.sound i) in
    (
      owner l.running_thread,
      f.serves (owner l.running_thread) l.running_thread refl (omega arith)
          (omega (arith, d.due, d.below)),
    )
