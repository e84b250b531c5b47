-- ===== src/Turn/Runs.antt =====
-- The theorems on main.c's turn as a whole, at two concrete players' programs.
use craftsman_console.Base.{
  ℕ, memcpy, store, ◌-◌, ◌^◌, ◌+◌, ◌≡◌, refl, true, false, List, [], ◌∷◌, ◌++◌, min, some, arith,
  length-replicate, zero, replicate, ok,
}
use craftsman_console.Record.{Record, RecordRw, Offset, record_read}
use craftsman_console.Record.Log.{encode, Holds}
use craftsman_console.Record.Tests.{
  heap, heap-IsAllocator, commands, commands-AllText, two_commands, two_commands-Holds, past_both,
  past_first, start,
}
use craftsman_console.Loop.{loop_frame, loop_input_queue_max}
use craftsman_console.Loop.Tests.{started}
use craftsman_console.Stats.Tests.{exact}
use craftsman_console.Execute.Benchmark.{Timer}
use craftsman_console.Execute.Tests.{machine, world}
use craftsman_console.Turn.{
  command_frame, frame_from, execute_any, frame_buf_len, preview_from, command_preview,
}
use craftsman_console.Turn.Frame.{Part, entries, moved_of}
use craftsman_console.Turn.Tests.{player_at, both, both-AllNext}
use craftsman_console.Turn.Step.{
  Runtime, with_times, Play, stalled, stepped, stall, run_frame, run_commands, step_frame, simulate,
  call_functions, store_objects, add_times, take_turn,
}
use craftsman_console.Tokenize.{tokenize, tokenize_from}
use craftsman_console.Execute.Commands.{strings_at, command_tokens, execute_simulation}
use craftsman_console.Global.{global_var_ops, global_var_ops_from}
use craftsman_console.Turn.Iteration.{pad_input}
use craftsman_console.Turn.Lockstep.{
  shared_of, shared_turn, NoBenchmark, InTurn, take_turn-lockstep,
}
use craftsman_console.Turn.Course.{Runs, ends, waits, takes, same_course}
use craftsman_console.Turn.Pace.{take_turn-stalls, pad_input-fills, take_turn-waits}

-- A library without functions.
abbrev pub runtime : Runtime
runtime = record {
  machine = machine;
  signed = true;
  allocator = heap;
  arithmetic = exact;
  timer = λ at h i j. (j, j + i);
  frame_timer = λ i. (0, 1);
  call = λ addr params objects. ok (0, objects);
}

abbrev play_of : ℕ → ℕ → List RecordRw → Play
play_of queue stale recording = record {
  game = record {
    simulation_goal = 4;
    exiting = false;
    input_rw = player_at past_both;
    loop = record started { input_queue = queue; input_queue_max = queue };
  };
  world = world;
  player_count = 2;
  game_record = recording;
  frame_store = player_at past_both;
  perf_stats = [];
  frame_buffer = replicate frame_buf_len stale;
}

-- The program of a player who has all commands, and one whose first record lags behind.
abbrev swift : Play
swift = play_of 10 0 (entries both)

abbrev lagging : List Part
lagging =
    (record {
      entry = record (player_at start) { write_offset = past_first };
      command = b'g' ∷ b'o' ∷ [];
      moved = record (player_at past_first) { write_offset = past_first };
    })
    ∷ (record {
      entry = player_at past_first;
      command = b's' ∷ b't' ∷ b'o' ∷ b'p' ∷ [];
      moved = player_at past_both;
    })
    ∷ []

abbrev slow : Play
slow = play_of 3 7 (entries lagging)

swift-InTurn : InTurn swift both
unfolding command_preview preview_from loop_input_queue_max
swift-InTurn = record {
  recording = refl;
  ahead = refl;
  reads = both-AllNext;
  buffer = length-replicate frame_buf_len zero;
}

slow-InTurn : InTurn slow lagging
unfolding command_preview preview_from loop_input_queue_max record_read
slow-InTurn = record {
  recording = refl;
  ahead = refl;
  reads = (
    record { held = two_commands; there = refl; off = past_first; reads = refl; moves = refl },
    (record { held = two_commands; there = refl; off = past_both; reads = refl; moves = refl }, tt),
  );
  buffer = length-replicate {A = ℕ} frame_buf_len 7;
}

-- The second player's machine is slower.
abbrev slow_timer : ℕ → Timer
slow_timer at h i j = (j, j + 1000)

abbrev slow_frames : ℕ → ℕ × ℕ
slow_frames i = (0, 1000)

abbrev slow_runtime : Runtime
slow_runtime = with_times slow_timer slow_frames runtime

commands-NoBenchmark : NoBenchmark commands
commands-NoBenchmark = (refl, (refl, tt))

same_turn : shared_turn (take_turn runtime swift) ≡ shared_turn (take_turn slow_runtime slow)
same_turn =
    take_turn-lockstep runtime slow_timer slow_frames swift slow both lagging swift-InTurn
      slow-InTurn refl commands-AllText commands-NoBenchmark (omega arith) refl

-- The second player has read all.
abbrev waiting_play : Play
waiting_play = play_of 10 0 (player_at start ∷ player_at past_both ∷ [])

turn_waits :
    (p' : Play) × (take_turn runtime waiting_play ≡ ok (stalled, p'))
    × (shared_of p' ≡ shared_of waiting_play)
    × (p'.game_record ≡ waiting_play.game_record)
    × (p'.game.input_rw ≡ waiting_play.game.input_rw)
    × (p'.game.exiting ≡ false)
    × (p'.game.loop ≡ record waiting_play.game.loop { input_queue = min (10 + 1) 10 })
turn_waits = take_turn-waits runtime waiting_play 1 (player_at past_both) refl refl (omega arith)

pad_two :
    (rec' : Record) × (off : Offset) × (pad_input 4 heap 4 (player_at past_both)
      ≡ ok (record (player_at past_both) { rec = some rec'; write_offset = off }))
    × Holds rec' off (commands ++ [] ∷ [] ∷ [])
    × (off.command_count ≡ 4)
pad_two =
    pad_input-fills 2 4 4 heap (player_at past_both) two_commands commands heap-IsAllocator refl
      two_commands-Holds refl (omega arith) (omega arith) (omega arith) (omega arith)

-- What a turn of "go" and "stop" leaves: "stop" lets the simulation run on.
abbrev gone_on : Play → List RecordRw → ℕ → Play
gone_on p recording stale = record p {
  game = record p.game { simulation_goal = 2 ^ 32 - 1 };
  game_record = recording;
  frame_buffer = encode commands ++ replicate 4088 stale;
}

swift_turn : take_turn runtime swift ≡ ok (stepped, gone_on swift (moved_of both) 0)
unfolding take_turn command_preview preview_from loop_input_queue_max command_frame frame_from
    record_read memcpy store run_frame run_commands execute_any execute_simulation command_tokens
    tokenize tokenize_from strings_at step_frame loop_frame simulate global_var_ops
    global_var_ops_from call_functions store_objects add_times
swift_turn = refl

slow_turn : take_turn slow_runtime slow ≡ ok (stepped, gone_on slow (moved_of lagging) 7)
unfolding take_turn command_preview preview_from loop_input_queue_max command_frame frame_from
    record_read memcpy store run_frame run_commands execute_any execute_simulation command_tokens
    tokenize tokenize_from strings_at step_frame loop_frame simulate global_var_ops
    global_var_ops_from call_functions store_objects add_times
slow_turn = refl

-- The programs in the frame after that.
abbrev in_next_frame : Play → Play
in_next_frame p = record p { game = record p.game { loop = record p.game.loop { frame = 7 } } }

swift_end : Play
swift_end = in_next_frame (gone_on swift (moved_of both) 0)

slow_end : Play
slow_end = in_next_frame (gone_on slow (moved_of lagging) 7)

swift_course : Runs runtime (commands ∷ []) swift (shared_of swift_end)
unfolding swift_end
swift_course =
    takes {q = swift_end} runtime.timer runtime.frame_timer both swift-InTurn refl commands-AllText
      commands-NoBenchmark (omega arith) swift_turn refl (ends refl)

-- The second program waits for a turn before it takes its own.
abbrev slow_before : Play
slow_before = play_of 2 7 (player_at past_both ∷ player_at past_first ∷ [])

slow_course : Runs runtime (commands ∷ []) slow_before (shared_of slow_end)
unfolding slow_end stall
slow_course =
    waits {q = slow} slow_timer slow_frames
      (record { index = 0; entry = player_at past_both; there = refl; behind = refl })
      (take_turn-stalls slow_runtime slow_before 0 (player_at past_both) refl refl) refl
      (takes {q = slow_end} slow_timer slow_frames lagging slow-InTurn refl commands-AllText
        commands-NoBenchmark (omega arith) slow_turn refl (ends refl))

ends_same : shared_of swift_end ≡ shared_of slow_end
ends_same = same_course swift_course slow_course refl
