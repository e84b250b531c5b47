-- ===== src/Execute/Benchmark.antt =====
-- execute_benchmark of execute.c: the calls of the library's functions, ten times as many in each round
-- as in the one before, and the statistics of their times. What the time stamp counter reads before and
-- after each call is an argument.
pub mod Rounds
pub mod Tables
pub mod Tests
use craftsman_console.Base.{
  ℕ, zero, suc, ◌+◌, ◌-◌, ◌*◌, ◌%◌, ◌^◌, Bool, true, false, List, [], ◌∷◌, length, get_elem?,
  Outcome, ok, fault, or_fault, ◌>>=◌, ◌>>◌, guard, ltb,
}
use craftsman_console.Global.{Param, Machine}
use craftsman_console.Stats.{Arithmetic, Stats, stats_init, stats_add, stats_max, to_double}
use craftsman_console.Dlfn.{Code, null, noop, copy, library, Functor, Object}
use craftsman_console.Execute.{World}

-- A function of the library, at its address, is called with the parameters of its functor, and may change
-- the bytes of the library's objects.
abbrev pub LibraryCall : Type 0
LibraryCall = ℕ → List Param → List Object → Outcome (ℕ × List Object)

-- `functor_invoke` on a functor of the library's table
unfoldable pub functor_invoke : LibraryCall → Functor → World → Outcome (ℕ × World)
functor_invoke call f w = invoke_code f.call
  where
    invoke_code : Code → Outcome (ℕ × World)
    invoke_code null = fault
    invoke_code noop = fault
    invoke_code copy = fault
    invoke_code (library addr) =
        call addr f.param w.objects >>= λ (r, objects). ok (r, record w { objects = objects })

-- The counter before and after call `j` of function `i` in round `h`.
abbrev pub Timer : Type 0
Timer = ℕ → ℕ → ℕ → ℕ × ℕ

-- `endCall - startCall`
abbrev pub elapsed : ℕ × ℕ → ℕ
elapsed (start_call, end_call) = (end_call + 2 ^ 64 - start_call) % 2 ^ 64

-- What the calls of a function leave: `sum`, its entry of `perfStats`, and the world.
pub record Timed : Type 0 where
  pub sum : ℕ
  pub stats : Stats
  pub world : World

-- What the functions of a round leave: the entries of `perfStats` in use, `aggregate`, and the world.
pub record RoundTimes : Type 0 where
  pub perf_stats : List Stats
  pub aggregate : Stats
  pub world : World

module _ (call : LibraryCall) (fp : Arithmetic) where
  abbrev add_time : ℕ → World → Timed → Timed
  add_time duration w t = record {
    sum = fp.add t.sum duration;
    stats = stats_add fp duration t.stats;
    world = w;
  }

  -- The loop over the calls of function `i`, from call `j` on.
  unfoldable pub time_calls : (ℕ → ℕ × ℕ) → ℕ → ℕ → ℕ → Timed → Outcome Timed
  unfolding functor_invoke stats_add to_double
  time_calls reads zero j i t = ok t
  time_calls reads (suc left) j i t = do
    f ← or_fault (get_elem? t.world.functions i)
    (r, w) ← functor_invoke call f.fnctor t.world
    time_calls reads left (j + 1) i (add_time (to_double fp (elapsed (reads j))) w t)

  -- The loop over the functions, from function `i` on.
  unfoldable pub time_functions : (ℕ → ℕ → ℕ × ℕ) → ℕ → ℕ → ℕ → Stats → World → Outcome RoundTimes
  unfolding time_calls stats_init
  time_functions reads calls zero i aggregate w =
      ok (record { perf_stats = []; aggregate = aggregate; world = w })
  time_functions reads calls (suc left) i aggregate w = do
    t ←
        time_calls (reads i) calls 0 i
          (record { sum = fp.round 0; stats = stats_init fp; world = w })
    later ← time_functions reads calls left (i + 1) (stats_add fp t.sum aggregate) t.world
    ok (record later { perf_stats = t.stats ∷ later.perf_stats })

  -- The rounds from round `h` on, of which `left` are left. The statistics that are printed after each
  -- round, and the world. `less` is the comparison of two `double`s. `calls` is an `int`, whose overflow
  -- is undefined behaviour.
  unfoldable pub time_rounds :
      (ℕ → ℕ → Bool) → Timer → ℕ → ℕ → ℕ → Stats → World → Outcome (List (List Stats) × World)
  unfolding time_functions stats_max
  time_rounds less timer zero h calls aggregate w = ok ([], w)
  time_rounds less timer (suc left) h calls aggregate w =
      time_functions (timer h) calls (length w.functions) 0 aggregate w >>= λ round.
      elim (less (fp.round 10000000) (stats_max round.aggregate)) [
        | true ↦ ok (round.perf_stats ∷ [], round.world)
        | false ↦
            guard (ltb (calls * 10) (2 ^ 31))
            >> (time_rounds less timer left (h + 1) (calls * 10) round.aggregate round.world
                >>= λ (reports, w'). ok (round.perf_stats ∷ reports, w'))
      ]

abbrev pub magnitudes : ℕ
magnitudes = 10

unfoldable pub execute_benchmark :
    Machine → Arithmetic → LibraryCall → Timer → World → Outcome (List (List Stats) × World)
unfolding time_rounds stats_init
execute_benchmark mach fp call timer w =
    time_rounds call fp mach.doubles.less timer magnitudes 0 1 (stats_init fp) w
