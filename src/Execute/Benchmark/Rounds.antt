-- ===== src/Execute/Benchmark/Rounds.antt =====
-- What execute_benchmark of execute.c does to the world, whatever the times are.
use craftsman_console.Base.{
  ℕ, zero, suc, ◌+◌, ◌*◌, ◌^◌, ◌≤◌, ◌<◌, ◌≡◌, ◌⊎◌, refl, ap, sym, subst, ◌∙◌, lt→ltb, List, Bool,
  true, false, Bool-cases, inl, inr, [], ◌∷◌, length, get_elem?, arith, Outcome, ok, crash, fault,
  or_fault, ◌>>=◌, bind_same, bind_assoc, ◌>>◌, guard, ltb,
}
use craftsman_console.Global.{Machine}
use craftsman_console.Stats.{Arithmetic, Stats, stats_init, stats_max}
use craftsman_console.Execute.{World}
use craftsman_console.Execute.Benchmark.{
  LibraryCall, functor_invoke, Timer, Timed, RoundTimes, time_calls, time_functions, time_rounds,
  execute_benchmark, magnitudes,
}

-- Function `i` called `k` times.
abbrev pub call_times : LibraryCall → ℕ → ℕ → World → Outcome World
call_times call zero i w = ok w
call_times call (suc k) i w = or_fault (get_elem? w.functions i) >>= λ f.
    functor_invoke call f.fnctor w >>= λ (r, w'). call_times call k i w'

-- Each function called `k` times, from function `i` on.
abbrev pub call_each : LibraryCall → ℕ → ℕ → ℕ → World → Outcome World
call_each call k zero i w = ok w
call_each call k (suc left) i w = call_times call k i w >>= call_each call k left (i + 1)

-- `n` rounds, each with ten times the calls of the one before.
abbrev pub call_rounds : LibraryCall → ℕ → ℕ → World → Outcome World
call_rounds call zero k w = ok w
call_rounds call (suc n) k w =
    call_each call k (length w.functions) 0 w >>= call_rounds call n (k * 10)

-- The world that is left.
abbrev pub world_left {ℓ} : {A : Type ℓ} → Outcome (A × World) → Outcome World
world_left o = o >>= λ (a, w). ok w

-- What `n` rounds make, `left` at most; or what is undefined behind all of them.
abbrev EndsAfter : ℕ → Outcome World → (ℕ → Outcome World) → Type 0
EndsAfter left o rounds =
    (n : ℕ) × (n ≤ left) × ((o ≡ rounds n) ⊎ ((n ≡ left) × (o ≡ (rounds n >>= λ w. fault))))

-- The numbers of calls in `left` rounds behind one of `k` calls are in the range of an `int`.
abbrev InRange : ℕ → ℕ → Type 0
InRange zero k = Unit
InRange (suc left) k = (k * 10 < 2 ^ 31) × InRange left (k * 10)

module _ (call : LibraryCall) (fp : Arithmetic) where
  -- What comes behind a round of `k` calls that did not take long.
  abbrev rounds_behind :
      (ℕ → ℕ → Bool) → Timer → ℕ → ℕ → ℕ → RoundTimes → Outcome (List (List Stats) × World)
  rounds_behind less timer left h k round =
      guard (ltb (k * 10) (2 ^ 31))
      >> (time_rounds call fp less timer left (h + 1) (k * 10) round.aggregate round.world
          >>= λ (reports, w'). ok (round.perf_stats ∷ reports, w'))

  time_calls-world :
      (reads : ℕ → ℕ × ℕ) (k j i : ℕ) (t : Timed)
      → (time_calls call fp reads k j i t >>= λ t'. ok t'.world) ≡ call_times call k i t.world
  unfolding time_calls
  time_calls-world reads zero j i t = refl
  time_calls-world reads (suc k) j i t =
      bind_assoc (or_fault (get_elem? t.world.functions i)) _ _
      ∙ bind_same (or_fault (get_elem? t.world.functions i)) _ _ (λ f.
        bind_assoc (functor_invoke call f.fnctor t.world) _ _
        ∙ bind_same (functor_invoke call f.fnctor t.world) _ _
            (λ (r, w). time_calls-world reads k (j + 1) i _))

  time_functions-world :
      (reads : ℕ → ℕ → ℕ × ℕ) (k left i : ℕ) (aggregate : Stats) (w : World)
      → (time_functions call fp reads k left i aggregate w >>= λ round. ok round.world)
        ≡ call_each call k left i w
  unfolding time_functions
  time_functions-world reads k zero i aggregate w = refl
  time_functions-world reads k (suc left) i aggregate w =
      let timed =
        time_calls call fp (reads i) k 0 i
          (record { sum = fp.round 0; stats = stats_init fp; world = w }) in
      bind_assoc timed _ _
      ∙ bind_same timed _ (λ t. ok t.world >>= call_each call k left (i + 1))
          (λ t.
            bind_assoc (time_functions call fp reads k left (i + 1) _ t.world) _ _
            ∙ time_functions-world reads k left (i + 1) _ t.world)
      ∙ sym (bind_assoc timed (λ t. ok t.world) (call_each call k left (i + 1)))
      ∙ ap (λ m. m >>= call_each call k left (i + 1)) (time_calls-world (reads i) k 0 i _)

  -- The rounds after one that is over, or failed.
  rounds_on :
      (less : ℕ → ℕ → Bool) (timer : Timer) (left h k : ℕ) (o : Outcome RoundTimes)
      → ((round : RoundTimes)
          → EndsAfter left
              (world_left (rounds_behind less timer left h k round))
              (λ n. call_rounds call n (k * 10) round.world))
      → EndsAfter left
          (world_left (
            o >>= λ round. elim (less (fp.round 10000000) (stats_max round.aggregate)) [
              | true ↦ ok (round.perf_stats ∷ [], round.world)
              | false ↦ rounds_behind less timer left h k round
            ]))
          (λ n. (o >>= λ round. ok round.world) >>= call_rounds call n (k * 10))
  rounds_on less timer left h k (ok round) later =
      elim (Bool-cases (less (fp.round 10000000) (stats_max round.aggregate))) [
        | inl e ↦ (0, omega arith, inl (rw e refl))
        | inr e ↦ rw e (later round)
      ]
  rounds_on less timer left h k crash later = (0, omega arith, inl refl)
  rounds_on less timer left h k fault later = (0, omega arith, inl refl)

  -- A round, and those after it.
  first_round :
      (less : ℕ → ℕ → Bool) (timer : Timer) (left h k : ℕ) (aggregate : Stats) (w : World)
      → ((round : RoundTimes)
          → EndsAfter left
              (world_left (rounds_behind less timer left h k round))
              (λ n. call_rounds call n (k * 10) round.world))
      → EndsAfter left
          (world_left (time_rounds call fp less timer (suc left) h k aggregate w))
          (λ n. call_rounds call (suc n) k w)
  unfolding time_rounds
  first_round less timer left h k aggregate w later =
      let round = time_functions call fp (timer h) k (length w.functions) 0 aggregate w in
      subst
        (λ m.
          EndsAfter left (world_left (time_rounds call fp less timer (suc left) h k aggregate w))
            (λ n. m >>= call_rounds call n (k * 10)))
        (time_functions-world (timer h) k (length w.functions) 0 aggregate w)
        (rounds_on less timer left h k round later)

  time_rounds-world :
      (less : ℕ → ℕ → Bool) (timer : Timer) (left h k : ℕ) (aggregate : Stats) (w : World)
      → InRange left k
      → EndsAfter left
          (world_left (time_rounds call fp less timer (suc left) h k aggregate w))
          (λ n. call_rounds call (suc n) k w)
  unfolding time_rounds
  time_rounds-world less timer zero h k aggregate w range =
      first_round less timer zero h k aggregate w (λ round.
        elim (Bool-cases (ltb (k * 10) (2 ^ 31))) [
          | inl e ↦ (0, omega arith, inl (rw e refl))
          | inr e ↦ (0, omega arith, inr (refl, rw e refl))
        ])
  time_rounds-world less timer (suc left) h k aggregate w range =
      first_round less timer (suc left) h k aggregate w (λ r.
        let (n, few, same) =
          time_rounds-world less timer left (h + 1) (k * 10) r.aggregate r.world range.1 in
        (
          suc n,
          omega (arith, few),
          rw (lt→ltb (k * 10) (2 ^ 31) range.0) (
              behind
                (time_rounds call fp less timer (suc left) (h + 1) (k * 10) r.aggregate r.world) r
                left n _ same),
        ))
    where
      behind :
          (o : Outcome (List (List Stats) × World)) (r : RoundTimes) (left n : ℕ)
          (rounds : Outcome World)
          → (world_left o ≡ rounds) ⊎ ((n ≡ left) × (world_left o ≡ (rounds >>= λ w'. fault)))
          → (world_left (o >>= λ (reports, w'). ok (r.perf_stats ∷ reports, w')) ≡ rounds)
            ⊎ ((suc n ≡ suc left)
                × (world_left (o >>= λ (reports, w'). ok (r.perf_stats ∷ reports, w'))
                    ≡ (rounds >>= λ w'. fault)))
      behind o r left n rounds (inl e) = inl (bind_assoc o _ _ ∙ e)
      behind o r left n rounds (inr (all, e)) = inr (ap suc all, bind_assoc o _ _ ∙ e)

-- A benchmark leaves the world as one round or more leave it, ten at most, in the first of which each
-- function is called once, in the order of the table, and in each other ten times as often one after the
-- other as in the round before; or it fails as they do; or ten rounds are not enough, and it ends in
-- undefined behaviour behind the tenth, where the number of calls overflows. What the clock reads
-- decides about the number of rounds and about the end behind the tenth, and about nothing else.
pub execute_benchmark-rounds :
    (mach : Machine) (fp : Arithmetic) (call : LibraryCall) (timer : Timer) (w : World)
    → (n : ℕ) × (n < magnitudes)
      × ((world_left (execute_benchmark mach fp call timer w) ≡ call_rounds call (suc n) 1 w)
          ⊎ ((suc n ≡ magnitudes)
              × (world_left (execute_benchmark mach fp call timer w)
                  ≡ (call_rounds call (suc n) 1 w >>= λ w'. fault))))
unfolding execute_benchmark
execute_benchmark-rounds mach fp call timer w =
    let (n, few, same) =
      time_rounds-world call fp mach.doubles.less timer 9 0 1 (stats_init fp) w in_range in
    (n, omega (arith, few), ends n _ same)
  where
    in_range : InRange 9 1
    in_range = (
      omega arith,
      (
        omega arith,
        (
          omega arith,
          (
            omega arith,
            (omega arith, (omega arith, (omega arith, (omega arith, (omega arith, tt))))),
          ),
        ),
      ),
    )

    ends :
        (n : ℕ) (o : Outcome World) {a b : Outcome World}
        → (o ≡ a) ⊎ ((n ≡ 9) × (o ≡ b))
        → (o ≡ a) ⊎ ((suc n ≡ magnitudes) × (o ≡ b))
    ends n o (inl e) = inl e
    ends n o (inr (all, e)) = inr (ap suc all, e)
