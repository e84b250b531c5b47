-- ===== src/Loopback/Tests.antt =====
-- The theorem on the loop through the server at one command that is read in two pieces.
use craftsman_console.Base.{ℕ, ◌≡◌, refl, true, List, [], ◌∷◌, some, arith, flatten, get_elem?, ok}
use craftsman_console.Network.{linux_flags}
use craftsman_console.Record.{RecordRw}
use craftsman_console.Record.Tests.{heap, heap-IsPlentiful}
use craftsman_console.Server.{Server, server_routine}
use craftsman_console.Server.Stream.{Pends}
use craftsman_console.Server.Routine.{reads}
use craftsman_console.Server.Tests.{idle, idle-Pends, pollin-IsReadable}
use craftsman_console.Connection.{Connection, connection_processing}
use craftsman_console.Connection.Frames.{Buffers}
use craftsman_console.Connection.Delivery.{frames, IsRecorded}
use craftsman_console.Connection.Tests.{
  holding, holding-Buffers, one_player, one_player-Recorded, only_first, no_logs,
}
use craftsman_console.Loopback.{own, loopback}

-- "hi"
abbrev commands : List (List ℕ)
commands = (b'h' ∷ b'i' ∷ []) ∷ []

abbrev two_pieces : List (List ℕ)
two_pieces = (b'h' ∷ []) ∷ (b'i' ∷ 0 ∷ []) ∷ []

send_hi :
    (sent : List (List ℕ)) × (s' : Server) × (c' : Connection) × (recording' : List RecordRw)
    × (entry : RecordRw) × (server_routine linux_flags
          (reads linux_flags 1 pollin-IsReadable two_pieces)
          idle
        ≡ ok (sent, s'))
    × Pends s' []
    × (flatten sent ≡ frames (own commands))
    × (connection_processing heap true (holding (frames (own commands)) 4085) one_player
        ≡ ok (true, c', recording'))
    × Buffers c' []
    × (get_elem? recording' 0 ≡ some entry)
    × IsRecorded entry commands
send_hi =
    loopback linux_flags 1 idle two_pieces commands heap true only_first
      (holding (frames (own commands)) 4085) one_player no_logs pollin-IsReadable idle-Pends refl
      (omega arith) refl (omega arith) heap-IsPlentiful refl one_player-Recorded
      (holding-Buffers (frames (own commands)) 4085 refl) (λ j. omega arith)
