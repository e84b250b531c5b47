-- ===== src/Execute/Benchmark/Tests.antt =====
-- Benchmarks of execute.c with a library of one function, which counts its calls in its object.
use craftsman_console.Base.{◌⊎◌, ◌>>=◌, fault, ℕ, suc, ◌+◌, ◌<◌, ◌≡◌, refl, List, [], ◌∷◌, ltb, ok}
use craftsman_console.Global.{Machine}
use craftsman_console.Dlfn.{library}
use craftsman_console.Stats.{stats_init, stats_add, stats_max, to_double}
use craftsman_console.Stats.Tests.{exact}
use craftsman_console.Execute.{World, zero_functor}
use craftsman_console.Execute.Tests.{machine, world}
use craftsman_console.Execute.Benchmark.{
  LibraryCall, functor_invoke, Timer, time_calls, time_functions, time_rounds, execute_benchmark,
  magnitudes,
}
use craftsman_console.Execute.Benchmark.Rounds.{call_rounds, world_left, execute_benchmark-rounds}

abbrev exact_machine : Machine
exact_machine = record machine { doubles = record machine.doubles { less = ltb } }

abbrev counted : ℕ → World
counted n = record world {
  functions = (record { name = b'f' ∷ []; fnctor = record zero_functor { call = library 8 } }) ∷ [];
  objects = (record { name = b'o' ∷ []; address = 64; bytes = n ∷ [] }) ∷ [];
}

count_call : LibraryCall
count_call addr params [] = ok (0, [])
count_call addr params (o ∷ objects) = ok (0, record o { bytes = bump o.bytes } ∷ objects)
  where
    bump : List ℕ → List ℕ
    bump [] = []
    bump (n ∷ ns) = (n + 1) ∷ ns

-- Each call takes `n` ticks.
abbrev each : ℕ → Timer
each n h i j = (j, j + n)

benchmark_slow :
    world_left (execute_benchmark exact_machine exact count_call (each 20000000) (counted 0))
    ≡ ok (counted 1)
unfolding count_call execute_benchmark time_rounds time_functions time_calls functor_invoke
    stats_init stats_add stats_max to_double
benchmark_slow = refl

-- On a faster machine the function is called ten times more.
benchmark_fast :
    world_left (execute_benchmark exact_machine exact count_call (each 2000000) (counted 0))
    ≡ ok (counted 11)
unfolding count_call execute_benchmark time_rounds time_functions time_calls functor_invoke
    stats_init stats_add stats_max to_double
benchmark_fast = refl

-- Where no time is measured, the number of calls overflows behind the tenth round.
benchmark_none : execute_benchmark exact_machine exact count_call (each 0) world ≡ fault
unfolding execute_benchmark time_rounds time_functions stats_init stats_max
benchmark_none = refl

benchmark_one :
    (n : ℕ) × (n < magnitudes)
    × ((world_left (execute_benchmark exact_machine exact count_call (each 2000000) (counted 0))
          ≡ call_rounds count_call (suc n) 1 (counted 0))
        ⊎ ((suc n ≡ magnitudes)
            × (world_left
                  (execute_benchmark exact_machine exact count_call (each 2000000) (counted 0))
                ≡ (call_rounds count_call (suc n) 1 (counted 0) >>= λ w'. fault))))
benchmark_one = execute_benchmark-rounds exact_machine exact count_call (each 2000000) (counted 0)
