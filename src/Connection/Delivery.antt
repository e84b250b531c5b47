-- ===== src/Connection/Delivery.antt =====
-- What the client of connection.c is to make of a list of messages: each player's commands.
use craftsman_console.Base.{
  ℕ, ◌+◌, ◌^◌, ◌≤◌, ◌<◌, ◌≡◌, ◌⊎◌, Bool, true, List, [], ◌∷◌, ◌++◌, some, ◌==◌, if◌then◌else◌,
  length, get_elem?, IsText,
}
use craftsman_console.Record.{Record, RecordRw}
use craftsman_console.Record.Log.{encode, Holds}
use craftsman_console.Record.Growth.{IsModerate}
use craftsman_console.Connection.{max_player}
use craftsman_console.Connection.Frames.{header, frame}

-- A message: the player's number and the command.
abbrev pub frames : List (ℕ × List ℕ) → List ℕ
frames [] = []
frames ((k, t) ∷ ms) = frame k t ++ frames ms

-- Each player's commands.
abbrev pub Logs : Type 0
Logs = ℕ → List (List ℕ)

abbrev pub deliver : ℕ → List ℕ → Logs → Logs
deliver k t logs j = if k == j then logs j ++ t ∷ [] else logs j

abbrev pub deliver_all : List (ℕ × List ℕ) → Logs → Logs
deliver_all [] logs = logs
deliver_all ((k, t) ∷ ms) logs = deliver_all ms (deliver k t logs)

pub record IsRecorded (entry : RecordRw) (cmds : List (List ℕ)) : Type 0 where
  pub held : Record
  pub there : entry.rec ≡ some held
  pub holds : Holds held entry.write_offset cmds
  pub moderate : IsModerate held

-- The players who are present have records, and these hold their commands.
abbrev pub Recorded : (ℕ → Bool) → List RecordRw → Logs → Type 0
Recorded present recording logs =
    (j : ℕ)
    → present j ≡ true
    → (entry : RecordRw) × (get_elem? recording j ≡ some entry) × IsRecorded entry (logs j)

-- Each message is a string for a player who is present.
abbrev pub Deliverable : (ℕ → Bool) → List (ℕ × List ℕ) → Type 0
Deliverable present [] = Unit
Deliverable present ((k, t) ∷ ms) =
    (k < max_player) × (present k ≡ true) × IsText t × Deliverable present ms

-- Less than a frame: not all of a header, or a header without all of its body.
abbrev pub IsPartial : List ℕ → Type 0
IsPartial rest =
    (length rest < 8)
    ⊎ ((k : ℕ) × (t : List ℕ) × (tail : List ℕ) × (rest ≡ header k t ++ tail)
        × (length tail ≤ length t)
        × (length t < 2 ^ 30))

-- No player's record gets to 2 ^ 28 bytes by `n` more.
abbrev pub HaveRoom : Logs → ℕ → Type 0
HaveRoom logs n = (j : ℕ) → length (encode (logs j)) + n < 2 ^ 28
