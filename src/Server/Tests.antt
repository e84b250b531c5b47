-- ===== src/Server/Tests.antt =====
-- Runs of network_server.c, and the theorems on it at a concrete server.
use craftsman_console.Base.{
  ℕ, zero, ◌≡◌, refl, true, false, List, [], ◌∷◌, ◌++◌, arith, length-replicate, flatten, replicate,
  ok,
}
use craftsman_console.Base.Int.{pos}
use craftsman_console.Network.{EndPoint, linux_flags}
use craftsman_console.Server.{
  Server, goes_on, process_from, server_message, server_process, process_received, server_routine,
  server_recv_max,
}
use craftsman_console.Server.Framing.{messages, unended, all_writes}
use craftsman_console.Server.Stream.{Pends, process_received-Pends}
use craftsman_console.Server.Routine.{IsReadable, reads, server_routine-stream}

-- "hi", terminated, and the beginning of another message
abbrev bytes : List ℕ
bytes = b'h' ∷ b'i' ∷ 0 ∷ b'y' ∷ []

process_bytes :
    server_process 4 bytes
    ≡ ok ((3 ∷ 0 ∷ 0 ∷ 0 ∷ []) ∷ (48 ∷ 48 ∷ 48 ∷ 0 ∷ []) ∷ (b'h' ∷ b'i' ∷ 0 ∷ []) ∷ [], 3)
unfolding server_process process_from server_message
process_bytes = refl

abbrev connected_ep : EndPoint
connected_ep = record {
  sfd = pos 5;
  storage = [];
  used_storage = 0;
  connected = true;
  connecting = true;
  disconnected = false;
}

-- A server with an empty buffer.
abbrev pub idle : Server
idle = record {
  ep = connected_ep;
  receive_buffer = replicate server_recv_max 0;
  used_receive_buffer = 0;
  bytes_received = 0;
}

pub idle-Pends : Pends idle []
idle-Pends = record {
  spare = replicate server_recv_max 0;
  contents = refl;
  full_size = length-replicate server_recv_max zero;
  used = refl;
}

-- A server that has read `bytes`.
abbrev busy : Server
busy = record {
  ep = connected_ep;
  receive_buffer = bytes ++ replicate 4092 0;
  used_receive_buffer = 4;
  bytes_received = 4;
}

busy-Pends : Pends busy bytes
busy-Pends = record {
  spare = replicate 4092 0;
  contents = refl;
  full_size = omega (arith, length-replicate 4092 zero);
  used = refl;
}

process_busy :
    (s' : Server) × (process_received busy ≡ ok (goes_on (all_writes (messages [] bytes)) s'))
    × Pends s' (unended [] bytes)
    × (s'.ep ≡ busy.ep)
process_busy = process_received-Pends busy bytes busy-Pends

pub pollin-IsReadable : IsReadable linux_flags 1
pollin-IsReadable = record { valid = refl; readable = refl; no_error = refl; no_hangup = refl }

-- the stream cut inside a message
abbrev pub pieces : List (List ℕ)
pieces = (b'h' ∷ []) ∷ (b'i' ∷ 0 ∷ b'y' ∷ []) ∷ []

serve_pieces :
    (s' : Server) × (server_routine linux_flags (reads linux_flags 1 pollin-IsReadable pieces) idle
      ≡ ok (all_writes (messages [] (flatten pieces)), s'))
    × Pends s' (unended [] (flatten pieces))
serve_pieces =
    server_routine-stream linux_flags 1 pollin-IsReadable pieces idle [] idle-Pends tt refl
      (omega arith)
