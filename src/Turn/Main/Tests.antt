-- ===== src/Turn/Main/Tests.antt =====
-- The theorems on main.c's program as a whole: a simulation at framerate 2 in which "!q" is typed.
use craftsman_console.Base.{
  ℕ, ◌+◌, ◌%◌, ◌^◌, ◌≡◌, refl, inl, Bool, true, false, List, [], ◌∷◌, Option, none, some, arith,
  replicate, store, memcpy, memmove, Outcome, ok, fault, crash,
}
use craftsman_console.Base.Int.{pos}
use craftsman_console.Network.{linux_flags, Polled, network_poll}
use craftsman_console.Server.{read_error}
use craftsman_console.Notify.{Watched, notify_poll}
use craftsman_console.Input.{
  Input, input_init, input_poll, read_input, read_from, drain, find_newline, drop_long,
}
use craftsman_console.Record.{record_alloc, record_append, record_realloc, append_bytes}
use craftsman_console.Record.Tests.{empty_record, start}
use craftsman_console.Connection.{receive_max, max_player, connection_io}
use craftsman_console.Connection.Tests.{holding}
use craftsman_console.Connection.Sync.{connection_sync}
use craftsman_console.Dlfn.Open.{Libc}
use craftsman_console.Execute.Tests.{world}
use craftsman_console.Clock.{clock_init}
use craftsman_console.Loop.{loop_init, loop_halt, loop_run, loop_write_frame}
use craftsman_console.Loop.Tests.{started}
use craftsman_console.Turn.{input_callback}
use craftsman_console.Turn.Runs.{runtime}
use craftsman_console.Turn.Iteration.{
  Answers, Session, handle_events, handle_lines, pad_input, take_input, halt, settle, synced_play,
  iteration,
}
use craftsman_console.Turn.Program.{Program, Opened, start_simulation, end_simulation}
use craftsman_console.Turn.Main.{empty_rw, with_session, rewound, main_loop}
use craftsman_console.Turn.Main.Iterations.{begins, iterates}
use craftsman_console.Turn.Main.Queue.{start_simulation-queue}
use craftsman_console.Dlfn.{max_symbols}
use craftsman_console.Execute.Handles.{AllHandles-set, AllHandles-cleared}
use craftsman_console.Execute.Tables.{IsWithin}
use craftsman_console.Turn.Main.Worlds.{start_simulation-tables}
use craftsman_console.Turn.Main.Quit.{main_loop-quit}

-- A qsort; there is nothing to sort here.
abbrev unsorted : Libc
unsorted = record { qsort = λ order xs. xs }

abbrev opened : Opened
opened = record {
  tsc_per_usec = 1;
  now = 100;
  fds_block = true;
  wd_block = true;
  watches = (some 7, some 1) ∷ [];
  handle = false;
  maps = none;
}

abbrev idle : Program
idle = record {
  session = record {
    play = record {
      game = record {
        simulation_goal = 0;
        exiting = false;
        input_rw = record { rec = some empty_record; read_offset = start; write_offset = start };
        loop = started;
      };
      world = world;
      player_count = 0;
      game_record = replicate max_player empty_rw;
      frame_store = empty_rw;
      perf_stats = [];
      frame_buffer = [];
    };
    watch = record { nfds = 0; fds = []; wd = []; watch_error = 0; buf = [] };
    input = record { buf = replicate 4096 0; used_buf = pos 0; polled = false };
    connection = holding [] receive_max;
  };
  library = record { dlname = []; dlhandle = false; functions = []; objects = [] };
}

-- "!q" is typed, and the connection cannot be written to.
abbrev quitting : Answers
quitting = record {
  watched = Watched.interrupted;
  watch_reads = λ i. read_error true;
  typed_poll = Polled.events 1;
  typed = some (b'!' ∷ b'q' ∷ 10 ∷ []);
  net_poll = Polled.events 0;
  net_read = none;
  written = λ n. pos 0;
  timer = runtime.timer;
  frame_timer = runtime.frame_timer;
  readings = [];
}

-- What there is, or else.
program_or : Program → Outcome Program → Program
program_or other (ok prog) = prog
program_or other crash = other
program_or other fault = other

session_or : Session → Outcome (Option Session) → Session
session_or other (ok none) = other
session_or other (ok (some s)) = s
session_or other crash = other
session_or other fault = other

begun : Program
unfolding program_or start_simulation
begun = program_or idle (start_simulation unsorted runtime 2 opened idle)

begun_lem : start_simulation unsorted runtime 2 opened idle ≡ ok begun
unfolding begun program_or start_simulation record_alloc
begun_lem = refl

quit_iteration : Outcome (Option Session)
unfolding begun
quit_iteration = iteration runtime linux_flags quitting begun.session

left : Session
unfolding session_or quit_iteration
left = session_or idle.session quit_iteration

left_lem : iteration runtime linux_flags quitting begun.session ≡ ok (some left)
unfolding left session_or quit_iteration begun program_or start_simulation record_alloc iteration
    take_input notify_poll handle_events input_poll read_input read_from drain find_newline
    drop_long memcpy memmove handle_lines input_callback loop_halt pad_input loop_write_frame
    loop_init clock_init input_init record_append connection_sync connection_io network_poll settle
    synced_play halt record_realloc append_bytes store
left_lem = refl

-- The buffer behind the line.
input_or : Input → Outcome (Bool × List (List ℕ) × Input) → Input
input_or other (ok (typing, lines, input)) = input
input_or other crash = other
input_or other fault = other

drained : Input
unfolding begun input_or
drained =
    input_or idle.session.input
      (input_poll linux_flags quitting.typed_poll quitting.typed begun.session.input)

drained_lem :
    input_poll linux_flags quitting.typed_poll quitting.typed begun.session.input
    ≡ ok (true, (b'!' ∷ b'q' ∷ []) ∷ [], drained)
unfolding drained input_or begun program_or start_simulation record_alloc input_init input_poll
    read_input read_from drain find_newline drop_long memcpy memmove
drained_lem = refl

begun_runs : begun.session.play.game.loop.running ≡ true
unfolding begun program_or start_simulation record_alloc loop_init
begun_runs = refl

quit_at_once :
    main_loop unsorted runtime linux_flags 2
      (record { opened = opened; iterations = quitting ∷ []; can_open = true } ∷ [])
      idle
    ≡ ok (
        some (
          (end_simulation true (with_session left begun)).0 ∷ [],
          rewound (end_simulation true (with_session left begun)).1,
        ))
quit_at_once =
    main_loop-quit {before = []} {u = begun.session} {v = left} unsorted runtime linux_flags 2
      opened true idle begun quitting [] [] true ((b'!' ∷ b'q' ∷ []) ∷ []) drained refl begun_lem
      begins begun_runs drained_lem (inl (refl, refl)) left_lem

queue_at_end :
    (left.play.game.loop.input_queue ≡ 2)
    × (left.play.game.loop.input_queue_max ≡ 2)
    × (loop_write_frame left.play.game.loop
        ≡ (left.play.game.loop.frame + left.play.game.loop.pause_frame + 2) % 2 ^ 32)
    × (left.play.game.exiting ≡ true → left.play.game.loop.running ≡ false)
unfolding loop_run
queue_at_end =
    start_simulation-queue unsorted runtime linux_flags 2 opened idle begun (quitting ∷ []) left
      refl (omega arith) begun_lem
      (iterates {t = begun.session} quitting begun_runs left_lem begins)

tables_at_end : IsWithin left.play.world
unfolding loop_run
tables_at_end =
    start_simulation-tables unsorted runtime linux_flags 2 opened idle begun (quitting ∷ []) left
      (omega arith) refl
      (AllHandles-set (replicate max_symbols (pos 0)) 4 (pos 1) (omega arith)
        (AllHandles-cleared max_symbols))
      (omega arith, omega arith) refl (λ A order xs. refl) (λ addr params objects. refl) begun_lem
      (iterates {t = begun.session} quitting begun_runs left_lem begins)
