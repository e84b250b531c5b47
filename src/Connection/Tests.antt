-- ===== src/Connection/Tests.antt =====
-- Runs of connection.c, and the theorems on it at a concrete connection.
use craftsman_console.Base.{
  ℕ, zero, suc, ◌+◌, ◌≡◌, refl, inl, Bool, true, false, List, [], ◌∷◌, ◌++◌, some, none, arith,
  ◌==◌, length, length-append, length-replicate, replicate, set, ok,
}
use craftsman_console.Base.Int.{pos, negsuc}
use craftsman_console.Record.{RecordRw, record_alloc}
use craftsman_console.Record.Tests.{
  commands, two_commands, past_both, two_commands-Holds, commands-AllText, heap, heap-IsPlentiful,
  empty_record, start, empty_record-Holds, empty_record-IsModerate,
}
use craftsman_console.Connection.{
  Connection, receive_max, max_player, fixed_atoi, digit_atoi, load_int, connection_processing,
}
use craftsman_console.Network.{linux_flags, Polled, Connected}
use craftsman_console.Connection.Start.{connection_init_host}
use craftsman_console.Connection.Waiting.{connection_init_host-unresolved}
use craftsman_console.Connection.Frames.{frame, Buffers}
use craftsman_console.Connection.Sync.{send_commands, terminated, send_commands-all}
use craftsman_console.Record.Read.{Stands}
use craftsman_console.Record.{Offset}
use craftsman_console.Connection.Delivery.{frames, Logs, deliver_all, Recorded}
use craftsman_console.Connection.Processing.{
  connection_processing-frames, connection_processing-absent,
}

atoi_012 : fixed_atoi true (b'0' ∷ b'1' ∷ b'2' ∷ []) ≡ ok (pos 12)
unfolding fixed_atoi digit_atoi
atoi_012 = refl

load_minus_two : load_int (254 ∷ 255 ∷ 255 ∷ 255 ∷ []) ≡ ok (negsuc 1)
unfolding load_int
load_minus_two = refl

-- "a" for player 0, and the first bytes of a frame
abbrev messages : List (ℕ × List ℕ)
messages = (0, b'a' ∷ []) ∷ []

abbrev part : List ℕ
part = 9 ∷ 0 ∷ 0 ∷ []

-- A connection with these bytes in its buffer.
abbrev pub holding : List ℕ → ℕ → Connection
holding bytes spare = record {
  client_ep = record {
    sfd = pos 5;
    storage = [];
    used_storage = 0;
    connected = true;
    connecting = true;
    disconnected = false;
  };
  receive_buffer = bytes ++ replicate spare 0;
  used_receive_buffer = length bytes;
  bytes_received = length bytes;
  bytes_processed = replicate max_player 0;
  messages_processed = replicate max_player 0;
  buffering = false;
}

pub holding-Buffers :
    (bytes : List ℕ) (spare : ℕ)
    → length bytes + spare ≡ receive_max
    → Buffers (holding bytes spare) bytes
holding-Buffers bytes spare e = record {
  spare = replicate spare 0;
  contents = refl;
  full_size = omega (arith, length-append bytes (replicate spare 0), length-replicate spare zero);
  used = refl;
}

abbrev absent : RecordRw
absent = record { rec = none; read_offset = start; write_offset = start }

-- Player 0 is present, with nothing recorded.
abbrev pub one_player : List RecordRw
one_player =
    (record { rec = some empty_record; read_offset = start; write_offset = start })
    ∷ absent
    ∷ absent
    ∷ absent
    ∷ []

abbrev pub only_first : ℕ → Bool
only_first j = j == 0

abbrev pub no_logs : Logs
no_logs j = []

pub one_player-Recorded : Recorded only_first one_player no_logs
one_player-Recorded zero here = (
  record { rec = some empty_record; read_offset = start; write_offset = start },
  refl,
  record {
    held = empty_record;
    there = refl;
    holds = empty_record-Holds;
    moderate = empty_record-IsModerate;
  },
)
one_player-Recorded (suc j) here = ground arith

process_messages :
    (c' : Connection) × (recording' : List RecordRw) × (connection_processing heap true
        (holding (frames messages ++ part) 4083)
        one_player
      ≡ ok (true, c', recording'))
    × Buffers c' part
    × Recorded only_first recording' (deliver_all messages no_logs)
process_messages =
    connection_processing-frames heap true only_first (holding (frames messages ++ part) 4083)
      one_player no_logs messages part heap-IsPlentiful
      (holding-Buffers (frames messages ++ part) 4083 refl) (inl (omega arith))
      (omega arith, refl, omega arith, tt) one_player-Recorded (λ j. omega arith)

alloc_empty : record_alloc heap ≡ ok empty_record
unfolding record_alloc
alloc_empty = refl

process_absent :
    connection_processing heap true (holding (frame 1 (b'a' ∷ [])) 4086) one_player
    ≡ ok (
      false,
      holding (frame 1 (b'a' ∷ [])) 4086,
      set one_player 1 (record absent { rec = some empty_record }),
    )
process_absent =
    connection_processing-absent heap true (holding (frame 1 (b'a' ∷ [])) 4086) one_player 1
      (b'a' ∷ []) [] absent empty_record (holding-Buffers (frame 1 (b'a' ∷ [])) 4086 refl)
      (omega arith) (omega arith) refl refl alloc_empty

send_two :
    (end : Offset) × (c' : Connection) × (send_commands 2
        (λ k. pos 3)
        two_commands
        start
        (holding [] receive_max)
      ≡ ok (true, terminated commands, end, c'))
    × Stands end commands
    × (c' ≡ record (holding [] receive_max) { buffering = c'.buffering })
send_two =
    send_commands-all commands (λ k. pos 3) two_commands past_both start [] []
      (holding [] receive_max) two_commands-Holds
      (record { bytes_read = refl; commands_read = refl }) commands-AllText (omega arith)
      (omega arith)

-- A host that is not found, and three polls: one is interrupted, and two find nothing.
wait_for_host :
    connection_init_host linux_flags none
      (pos 5)
      Connected.done
      (Polled.interrupted ∷ Polled.events 0 ∷ Polled.events 4 ∷ [])
      (record {
        client_ep = (holding [] receive_max).client_ep;
        server_ep = (holding [] receive_max).client_ep;
        thread = none;
      })
    ≡ ok none
wait_for_host =
    connection_init_host-unresolved linux_flags (pos 5) Connected.done
      (Polled.interrupted ∷ Polled.events 0 ∷ Polled.events 4 ∷ []) _ (refl, (refl, tt))
