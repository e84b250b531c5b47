-- ===== src/Turn.antt =====
-- main.c: what the game makes of the players' records in a turn, and of what is typed.
pub mod Step
pub mod Dispatch
pub mod Lockstep
pub mod Iteration
pub mod Pace
pub mod Course
pub mod Program
pub mod Worlds
pub mod Main
pub mod Prompt
pub mod Typing
pub mod Runs
pub mod Preview
pub mod Frame
pub mod Tests
use craftsman_console.Base.{
  ℕ, zero, suc, ◌+◌, ◌-◌, ◌%◌, ◌^◌, min, max, Bool, true, false, List, [], ◌∷◌, Option, none, some,
  leb, ◌==◌, if◌then◌else◌, length, memcpy, store, Outcome, ok, fault, or_fault, ◌>>=◌,
}
use craftsman_console.Global.{Machine}
use craftsman_console.Record.{Allocator, Record, RecordRw, Offset, record_append, record_read}
use craftsman_console.Loop.{Loop, loop_halt}
use craftsman_console.Execute.{World}
use craftsman_console.Execute.Commands.{
  execute_simulation, execute_parameter, execute_object, execute_hash, execute_variable,
  execute_result, execute_mutation, execute_condition, first_byte,
}

-- `CommandPreview_t`
pub record CommandPreview : Type 0 where
  pub turn_nearest : ℕ
  pub turn_farthest : ℕ

-- The commands of a player that are not read.
abbrev pub turns_ahead : RecordRw → ℕ
turns_ahead entry =
    (entry.write_offset.command_count + 2 ^ 32 - entry.read_offset.command_count) % 2 ^ 32

-- The loop, from the state so far.
unfoldable pub preview_from : CommandPreview → List RecordRw → CommandPreview
preview_from state [] = state
preview_from state (entry ∷ recording) =
    preview_from
      (record {
        turn_nearest = min (turns_ahead entry) state.turn_nearest;
        turn_farthest = max (turns_ahead entry) state.turn_farthest;
      })
      recording

-- `recording` has as many entries as there are players, and `queue_max` is `loop_input_queue_max()`.
unfoldable pub command_preview : ℕ → List RecordRw → CommandPreview
unfolding preview_from
command_preview queue_max recording =
    preview_from (record { turn_nearest = queue_max; turn_farthest = 0 }) recording

abbrev pub frame_buf_len : ℕ
frame_buf_len = 4096

abbrev pub command_or_empty : Option (List ℕ) → List ℕ
command_or_empty none = []
command_or_empty (some cmd) = cmd

-- What `command_frame` leaves: the offset and length of each command, or `none` for the return value
-- false; the buffer; and the records.
pub record Framed : Type 0 where
  pub commands : Option (List (ℕ × ℕ))
  pub buffer : List ℕ
  pub recording : List RecordRw

abbrev pub prepend : ℕ × ℕ → RecordRw → Framed → Framed
prepend command entry framed = record framed {
  commands = next framed.commands;
  recording = entry ∷ framed.recording;
}
  where
    next : Option (List (ℕ × ℕ)) → Option (List (ℕ × ℕ))
    next none = none
    next (some cs) = some (command ∷ cs)

-- The loop over the players, with `buffer_write` as an offset. A null command has no length.
unfoldable pub frame_from : List RecordRw → ℕ → List ℕ → Outcome Framed
frame_from [] write buffer = ok (record { commands = some []; buffer = buffer; recording = [] })
frame_from (entry ∷ rest) write buffer = or_fault entry.rec >>= λ rec.
    record_read rec entry.read_offset >>= λ (read, off).
    let cmd = command_or_empty read in
    elim (leb frame_buf_len (write + length cmd)) [
      | true ↦ ok (record {
        commands = none;
        buffer = buffer;
        recording = record entry { read_offset = off } ∷ rest;
      })
      | false ↦ memcpy buffer write (length cmd) cmd >>= λ copied.
          store copied (write + length cmd) 0 >>= λ ended.
          frame_from rest (write + length cmd + 1) ended >>= λ framed.
          ok (prepend (write, length cmd) (record entry { read_offset = off }) framed)
    ]

-- `buffer` is the function's static buffer.
unfoldable pub command_frame : List RecordRw → List ℕ → Outcome Framed
unfolding frame_from
command_frame recording buffer = frame_from recording 0 buffer

unfoldable pub game_players : List RecordRw → ℕ
game_players [] = 0
game_players (entry ∷ recording) = elim entry.rec [
  | none ↦ game_players recording
  | some rec ↦ game_players recording + 1
]

-- The statics of main.c, and those of the loop.
pub record Game : Type 0 where
  pub simulation_goal : ℕ
  pub exiting : Bool
  pub input_rw : RecordRw
  pub loop : Loop

-- `input` is the line with its terminator. What starts with `!` is not recorded.
unfoldable pub input_callback : Allocator → ℕ → List ℕ → Game → Outcome Game
unfolding loop_halt
input_callback m len [] g = fault
input_callback m len (c ∷ input) g = if c == b'!' then ok (meta input) else append
  where
    meta : List ℕ → Game
    meta line =
        if first_byte line == b'q'
        then record g { simulation_goal = 0; exiting = true; loop = loop_halt g.loop }
        else if first_byte line == b'r'
        then record g { simulation_goal = 0; loop = loop_halt g.loop }
        else g

    append : Outcome Game
    append = or_fault g.input_rw.rec >>= λ rec.
        record_append m len (c ∷ input) rec g.input_rw.write_offset >>= λ (rec', off).
        ok (record g { input_rw = record g.input_rw { rec = some rec'; write_offset = off } })

-- The functions of the library, which only `execute_benchmark` calls here, are the argument
-- `benchmark`. The goal of the simulation is the first part.
unfoldable pub execute_any :
    Machine → Bool → (World → Outcome World) → ℕ → List ℕ → ℕ × World → Outcome (ℕ × World)
execute_any mach signed benchmark len input (goal, w) =
    if first_byte input == b'b'
    then (benchmark w >>= λ w'. ok (goal, w'))
    else if first_byte input == b'c'
    then (execute_condition mach len input w >>= λ _. ok (goal, w))
    else if first_byte input == b'h'
    then ok (goal, execute_hash signed w)
    else if first_byte input == b'm'
    then (execute_mutation mach len input w >>= λ w'. ok (goal, w'))
    else if first_byte input == b'o'
    then (execute_object len input w >>= λ _. ok (goal, w))
    else if first_byte input == b'p'
    then (execute_parameter mach len input w >>= λ w'. ok (goal, w'))
    else if first_byte input == b'r'
    then (execute_result len input w >>= λ w'. ok (goal, w'))
    else if first_byte input == b's'
    then (execute_simulation len input >>= λ goal'. ok (goal', w))
    else if first_byte input == b'v'
    then (execute_variable mach len input w >>= λ w'. ok (goal, w'))
    else ok (goal, w)
