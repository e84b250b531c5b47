-- ===== src/Turn/Step.antt =====
-- main.c: what the loop of game_simulation makes of a turn, once the network is in step.
use craftsman_console.Base.{
  ℕ, zero, suc, ◌+◌, ◌%◌, ◌^◌, min, Bool, true, false, List, [], ◌∷◌, ◌++◌, Option, none, some, leb,
  ◌==◌, length, take, drop, set, get_elem?, Outcome, ok, crash, or_fault, ◌>>=◌,
}
use craftsman_console.Global.{Machine, global_var_ops}
use craftsman_console.Dlfn.{Object}
use craftsman_console.Record.{Allocator, RecordRw, record_append}
use craftsman_console.Loop.{
  Loop, loop_stall, loop_pause, loop_sync, loop_frame, loop_input_queue_max,
}
use craftsman_console.Execute.{World, call_load_param, call_store_result}
use craftsman_console.Execute.Benchmark.{
  LibraryCall, functor_invoke, Timer, elapsed, execute_benchmark,
}
use craftsman_console.Stats.{Arithmetic, Stats, stats_add, to_double}
use craftsman_console.Turn.{Game, Framed, command_preview, command_frame, execute_any}

-- What the program runs on. `timer` is what the time stamp counter reads in the benchmark that begins at
-- an offset of the frame's buffer, and `frame_timer` what it reads before and after the call of each
-- function in a frame.
pub record Runtime : Type 0 where
  pub machine : Machine
  pub signed : Bool
  pub allocator : Allocator
  pub arithmetic : Arithmetic
  pub timer : ℕ → Timer
  pub frame_timer : ℕ → ℕ × ℕ
  pub call : LibraryCall

-- The same machine and library, with other times.
abbrev pub with_times : (ℕ → Timer) → (ℕ → ℕ × ℕ) → Runtime → Runtime
with_times timer frame_timer env = record env { timer = timer; frame_timer = frame_timer }

-- The state of `game_simulation`: the statics, and its own variables. `player_count` players take part,
-- and `frame_buffer` is the static buffer of `command_frame`.
pub record Play : Type 0 where
  pub game : Game
  pub world : World
  pub player_count : ℕ
  pub game_record : List RecordRw
  pub frame_store : RecordRw
  pub perf_stats : List Stats
  pub frame_buffer : List ℕ

-- `execute_benchmark`, without what it prints
unfoldable pub benchmark_at : Runtime → ℕ → World → Outcome World
unfolding execute_benchmark
benchmark_at env start w =
    execute_benchmark env.machine env.arithmetic env.call (env.timer start) w >>= λ (reports, w').
    ok w'

-- The loop over the commands of a frame. A command is cut in place; the cuts are in its own bytes, which
-- nothing reads again.
unfoldable pub run_commands : Runtime → List (ℕ × ℕ) → List ℕ → ℕ × World → Outcome (ℕ × World)
unfolding benchmark_at
run_commands env [] buffer state = ok state
run_commands env ((start, len) ∷ commands) buffer state =
    execute_any env.machine env.signed (benchmark_at env start) len (drop start buffer) state
    >>= run_commands env commands buffer

-- The body of the loop over the functions, and the loop from function `i` on.
unfoldable pub call_function : Runtime → ℕ → World → Outcome World
unfolding call_load_param functor_invoke call_store_result
call_function env i w = do
  loaded ← call_load_param env.machine i w
  f ← or_fault (get_elem? loaded.functions i)
  (r, called) ← functor_invoke env.call f.fnctor loaded
  call_store_result env.machine i (record called { result = set called.result i r })

unfoldable pub call_functions : Runtime → ℕ → ℕ → World → Outcome World
unfolding call_function
call_functions env zero i w = ok w
call_functions env (suc left) i w = call_function env i w >>= call_functions env left (i + 1)

-- The loop that appends the bytes of each object to the frame store.
unfoldable pub store_objects : Allocator → List Object → RecordRw → Outcome RecordRw
store_objects m [] store = ok store
store_objects m (o ∷ objects) store = do
  rec ← or_fault store.rec
  (rec', off) ← record_append m (length o.bytes) o.bytes rec store.write_offset
  store_objects m objects (record store { rec = some rec'; write_offset = off })

-- The loop that adds the time of each of `left` functions, from function `i` on. There are as many entries
-- of `perfStats` as there can be functions.
unfoldable pub add_times : Arithmetic → (ℕ → ℕ × ℕ) → ℕ → ℕ → List Stats → List Stats
unfolding stats_add to_double
add_times fp reads zero i stats = stats
add_times fp reads (suc left) i [] = []
add_times fp reads (suc left) i (s ∷ stats) =
    stats_add fp (to_double fp (elapsed (reads i))) s ∷ add_times fp reads left (i + 1) stats

-- Which of the loop's calls ends the turn.
pub data Ending : Type 0 where
  stalled paused stepped : Ending

-- A player has nothing ahead.
unfoldable pub stall : Play → Play
unfolding loop_input_queue_max
stall p = record p {
  game = record p.game {
    loop = record p.game.loop {
      input_queue = min ((p.game.loop.input_queue + 1) % 2 ^ 32) (loop_input_queue_max p.game.loop);
    };
  };
}

-- What a step of the simulation makes of the world and the frame store.
unfoldable pub simulate : Runtime → World → RecordRw → Outcome (World × RecordRw)
unfolding global_var_ops call_functions store_objects
simulate env w store = do
  vars ← global_var_ops env.machine w.globals
  called ← call_functions env (length w.functions) 0 (record w { globals = vars })
  stored ← store_objects env.allocator called.objects store
  ok (called, stored)

-- The rest of the turn, once the commands are executed.
unfoldable pub step_frame : Runtime → Play → Outcome (Ending × Play)
unfolding loop_frame simulate add_times
step_frame env p = elim (leb p.game.simulation_goal (loop_frame p.game.loop)) [
  | true ↦ ok (paused, p)
  | false ↦ simulate env p.world p.frame_store >>= λ (w, store). ok (
    stepped,
    record p {
      world = w;
      frame_store = store;
      perf_stats = add_times env.arithmetic env.frame_timer (length w.functions) 0 p.perf_stats;
    },
  )
]

-- The commands of the frame are executed.
unfoldable pub run_frame : Runtime → Framed → Play → Outcome (Ending × Play)
unfolding run_commands step_frame
run_frame env framed p = elim framed.commands [
  | none ↦ crash
  | some commands ↦
      run_commands env commands framed.buffer (p.game.simulation_goal, p.world) >>= λ (goal, w).
      step_frame env (record p {
        game = record p.game { simulation_goal = goal };
        world = w;
        game_record = framed.recording ++ drop p.player_count p.game_record;
        frame_buffer = framed.buffer;
      })
]

-- The turn, up to the call that waits for the next frame.
unfoldable pub take_turn : Runtime → Play → Outcome (Ending × Play)
unfolding command_preview loop_input_queue_max stall command_frame run_frame
take_turn env p =
    let recording = take p.player_count p.game_record in
    let preview = command_preview (loop_input_queue_max p.game.loop) recording in
    elim (preview.turn_nearest == 0) [
      | true ↦ ok (stalled, stall p)
      | false ↦ command_frame recording p.frame_buffer >>= λ framed. run_frame env framed p
    ]

-- The wait, on readings of the clock.
unfoldable pub await_next : Ending → List (ℕ × ℕ) → Loop → Option Loop
unfolding loop_stall loop_pause loop_sync
await_next stalled readings l = loop_stall readings l
await_next paused readings l = loop_pause readings l
await_next stepped readings l = loop_sync readings l
