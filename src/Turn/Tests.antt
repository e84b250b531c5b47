-- ===== src/Turn/Tests.antt =====
-- The theorems on main.c's turns at two concrete players.
use craftsman_console.Base.{ℕ, false, ◌≡◌, refl, List, [], ◌∷◌, some, arith, ok}
use craftsman_console.Record.{Record, RecordRw, Offset, record_read}
use craftsman_console.Record.Log.{Holds}
use craftsman_console.Record.Growth.{IsModerate}
use craftsman_console.Loop.Tests.{started}
use craftsman_console.Turn.Iteration.{handle_lines}
use craftsman_console.Turn.Typing.{with_input, handle_lines-records}
use craftsman_console.Record.Tests.{
  heap, heap-IsPlentiful, empty_record, empty_record-Holds, empty_record-IsModerate, two_commands,
  past_both, past_first, start,
}
use craftsman_console.Turn.{Game}
use craftsman_console.Turn.Frame.{Part, AllNext}

abbrev pub player_at : Offset → RecordRw
player_at off = record { rec = some two_commands; read_offset = off; write_offset = past_both }

-- One player has read nothing, the other one command of the two.
abbrev pub both : List Part
both =
    (record { entry = player_at start; command = b'g' ∷ b'o' ∷ []; moved = player_at past_first })
    ∷ (record {
      entry = player_at past_first;
      command = b's' ∷ b't' ∷ b'o' ∷ b'p' ∷ [];
      moved = player_at past_both;
    })
    ∷ []

pub both-AllNext : AllNext both
unfolding record_read
both-AllNext = (
  record { held = two_commands; there = refl; off = past_first; reads = refl; moves = refl },
  (record { held = two_commands; there = refl; off = past_both; reads = refl; moves = refl }, tt),
)

-- A game with nothing typed yet, and the lines "go", "" and "x!".
abbrev fresh : Game
fresh = record {
  simulation_goal = 4;
  exiting = false;
  input_rw = record { rec = some empty_record; read_offset = start; write_offset = start };
  loop = started;
}

abbrev typed : List (List ℕ)
typed = (b'g' ∷ b'o' ∷ []) ∷ [] ∷ (b'x' ∷ b'!' ∷ []) ∷ []

type_lines :
    (rec' : Record) × (off : Offset) × (handle_lines heap typed fresh
      ≡ ok (with_input rec' off fresh))
    × Holds rec' off typed
    × IsModerate rec'
type_lines =
    handle_lines-records typed [] heap fresh empty_record heap-IsPlentiful refl empty_record-Holds
      empty_record-IsModerate (refl, (refl, (refl, tt))) (omega arith) (omega arith)
