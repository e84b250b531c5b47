-- ===== src/Turn/Iteration.antt =====
-- main.c: an iteration of game_simulation's loop, from the files that changed and the lines typed to the
-- wait for the next frame. The answers of the system calls are arguments.
use mathlib.Core.Option
use craftsman_console.Base.{
  ℕ, strstr, zero, suc, Bool, true, false, ◌||◌, List, [], ◌∷◌, ◌++◌, Option, none, some, ltb,
  if◌then◌else◌, length, cstring, Outcome, ok, fault, or_fault, ◌>>=◌,
}
use craftsman_console.Base.Int.{ℤ}
use craftsman_console.Network.{PollFlags, Polled}
use craftsman_console.Server.{ReadResult}
use craftsman_console.Notify.{Event, Watch, Watched, notify_poll}
use craftsman_console.Input.{Input, input_poll}
use craftsman_console.Record.{Allocator, RecordRw, record_append}
use craftsman_console.Connection.{Connection}
use craftsman_console.Connection.Sync.{
  SyncStatus, conn_ok, conn_term, conn_change, conn_corrupt, Synced, connection_sync,
}
use craftsman_console.Loop.{loop_halt, loop_write_frame}
use craftsman_console.Turn.{Game, input_callback}
use craftsman_console.Execute.Benchmark.{Timer}
use craftsman_console.Turn.Step.{Runtime, with_times, Play, Ending, take_turn, await_next}

-- "code/feature.so"
abbrev pub dlpath : List ℕ
dlpath =
    b'c' ∷ b'o' ∷ b'd' ∷ b'e' ∷ b'/' ∷ b'f' ∷ b'e' ∷ b'a' ∷ b't' ∷ b'u' ∷ b'r' ∷ b'e' ∷ b'.' ∷ b's'
    ∷ b'o' ∷ []

unfoldable pub notify_callback : Event → Game → Outcome Game
unfolding strstr loop_halt
notify_callback event g = or_fault (cstring event.name) >>= λ name.
    ok (if strstr dlpath name then record g { simulation_goal = 0; loop = loop_halt g.loop } else g)

-- The calls of the handlers, in order. A line is given with its terminator.
unfoldable pub handle_events : List Event → Game → Outcome Game
unfolding notify_callback
handle_events [] g = ok g
handle_events (e ∷ events) g = notify_callback e g >>= handle_events events

unfoldable pub handle_lines : Allocator → List (List ℕ) → Game → Outcome Game
unfolding input_callback
handle_lines m [] g = ok g
handle_lines m (line ∷ lines) g =
    input_callback m (length line) (line ++ 0 ∷ []) g >>= handle_lines m lines

-- Empty commands are appended until there is one for each frame up to the target. A round is one of
-- them, so `target` rounds are enough.
unfoldable pub pad_input : ℕ → Allocator → ℕ → RecordRw → Outcome RecordRw
pad_input zero m target rw = if ltb rw.write_offset.command_count target then fault else ok rw
pad_input (suc fuel) m target rw = elim (ltb rw.write_offset.command_count target) [
  | false ↦ ok rw
  | true ↦ or_fault rw.rec >>= λ rec. record_append m 0 [] rec rw.write_offset >>= λ (rec', off).
      pad_input fuel m target (record rw { rec = some rec'; write_offset = off })
]

-- What the system answers in an iteration: for the watches, standard input, the connection, the time stamp
-- counter around the calls, and the clock at the end.
pub record Answers : Type 0 where
  pub watched : Watched
  pub watch_reads : ℕ → ReadResult
  pub typed_poll : Polled
  pub typed : Option (List ℕ)
  pub net_poll : Polled
  pub net_read : Option (List ℕ)
  pub written : ℕ → ℤ
  pub timer : ℕ → Timer
  pub frame_timer : ℕ → ℕ × ℕ
  pub readings : List (ℕ × ℕ)

-- The state of the program between iterations.
pub record Session : Type 0 where
  pub play : Play
  pub watch : Watch
  pub input : Input
  pub connection : Connection

abbrev pub with_game : Game → Play → Play
with_game g p = record p { game = g }

-- The loop ends before its next iteration; `leaving` is whether the program ends too.
unfoldable pub halt : Bool → Play → Play
unfolding loop_halt
halt leaving p = record p {
  game = record p.game { loop = loop_halt p.game.loop; exiting = p.game.exiting || leaving };
}

-- How an iteration ends: by `continue` without a wait, or with the call that waits; `none` inside says
-- that the readings of the clock end before the wait does.
unfoldable pub end_turn : List (ℕ × ℕ) → Ending × Play → Option Play
unfolding await_next
end_turn readings (ending, p) = elim (await_next ending readings p.game.loop) [
  | none ↦ none
  | some l ↦ some (record p { game = record p.game { loop = l } })
]

-- What follows the status of `connection_sync`.
unfoldable pub settle : Runtime → List (ℕ × ℕ) → SyncStatus → Play → Outcome (Option Play)
unfolding take_turn halt end_turn
settle env readings conn_corrupt p = ok (some (halt true p))
settle env readings conn_term p = ok (some (halt true p))
settle env readings conn_change p = ok (some (halt false p))
settle env readings conn_ok p = take_turn env p >>= λ turn. ok (end_turn readings turn)

-- The handlers' part of an iteration.
unfoldable pub take_input : Runtime → PollFlags → Answers → Session → Outcome Session
unfolding notify_poll handle_events input_poll handle_lines pad_input loop_write_frame
take_input env flags a s = do
  (watching, events, watch) ← notify_poll flags a.watched a.watch_reads s.watch
  changed ← handle_events events s.play.game
  (typing, lines, input) ← input_poll flags a.typed_poll a.typed s.input
  g ← handle_lines env.allocator lines changed
  input_rw ← pad_input (loop_write_frame g.loop) env.allocator (loop_write_frame g.loop) g.input_rw
  ok (record s {
    play = with_game (record g { input_rw = input_rw }) s.play;
    watch = watch;
    input = input;
  })

unfoldable pub synced_play : Synced → Play → Play
synced_play synced p = record p {
  game = record p.game { input_rw = synced.input };
  game_record = synced.game_record;
}

-- The body of the loop.
unfoldable pub iteration : Runtime → PollFlags → Answers → Session → Outcome (Option Session)
unfolding take_input connection_sync settle synced_play
iteration env flags a s = do
  t ← take_input env flags a s
  synced ←
      connection_sync flags a.net_poll a.net_read a.written env.allocator env.signed
        (loop_write_frame t.play.game.loop) t.connection t.play.game.input_rw t.play.game_record
  after ←
      settle (with_times a.timer a.frame_timer env) a.readings synced.status
        (synced_play synced t.play)
  ok (Option.map (λ p. record t { play = p; connection = synced.connection }) after)
