-- ===== src/Server.antt =====
-- network_server.c: the server thread, which sends each terminated message back in a frame.
pub mod Framing
pub mod Stream
pub mod Routine
pub mod Tests
use craftsman_console.Base.{
  ℕ, zero, suc, ◌+◌, ◌-◌, ◌/◌, ◌%◌, ◌^◌, Bool, true, false, not, List, [], ◌∷◌, ◌++◌, Option, none,
  some, ltb, ◌==◌, if◌then◌else◌, length, get_elem?, take, drop, memcpy, memmove, Outcome, ok,
  fault, or_fault, ◌>>=◌, ◌>>◌, guard, leb,
}
use craftsman_console.Network.{PollFlags, Polled, EndPoint, network_poll, is_flagged}

-- the bytes of a `uint32_t`, the lowest first
abbrev pub le32 : ℕ → List ℕ
le32 n = n % 256 ∷ n / 256 % 256 ∷ n / 2 ^ 16 % 256 ∷ n / 2 ^ 24 % 256 ∷ []

-- "000" with its terminator
abbrev pub player : List ℕ
player = 48 ∷ 48 ∷ 48 ∷ 0 ∷ []

-- The three calls of `network_write`, as the bytes that they are given; `message` is the object from
-- the pointer on. What the calls return is not looked at.
unfoldable pub server_message : ℕ → List ℕ → Outcome (List (List ℕ))
server_message n message = do
  guard (leb ((n + 1) % 2 ^ 32) (length message))
  ok (le32 ((n + 1) % 2 ^ 32) ∷ player ∷ take ((n + 1) % 2 ^ 32) message ∷ [])

-- The loop of `server_process` at index `i`, with `left` rounds left: the writes, and `msg_start`.
unfoldable pub process_from : ℕ → ℕ → ℕ → List ℕ → Outcome (List (List ℕ) × ℕ)
process_from zero i msg_start bytes = ok ([], msg_start)
process_from (suc left) i msg_start bytes = do
  c ← or_fault (get_elem? bytes i)
  sent ← (if c == 0 then server_message (i - msg_start) (drop msg_start bytes) else ok [])
  (later, end) ← process_from left (i + 1) (if c == 0 then i + 1 else msg_start) bytes
  ok (sent ++ later, end)

-- `n` bytes of the buffer are processed; the second part is how many are done with.
unfoldable pub server_process : ℕ → List ℕ → Outcome (List (List ℕ) × ℕ)
unfolding process_from
server_process n bytes = process_from n 0 0 bytes

-- What read answers: an error, with the test of `errno` by `errno_would_block`, or the bytes read.
pub data ReadResult : Type 0 where
  read_error : Bool → ReadResult
  read_bytes : List ℕ → ReadResult

unfoldable pub server_halt : ReadResult → Bool → Bool
server_halt (read_error would_block) pollhup = not would_block
server_halt (read_bytes []) pollhup = pollhup
server_halt (read_bytes (_ ∷ _)) pollhup = false

-- the statics of `server_routine`, and its end point
pub record Server : Type 0 where
  pub ep : EndPoint
  pub receive_buffer : List ℕ
  pub used_receive_buffer : ℕ
  pub bytes_received : ℕ

abbrev pub server_recv_max : ℕ
server_recv_max = 4096

-- how one round of the loop ends, with the writes of the round
pub data Round : Type 0 where
  goes_on : List (List ℕ) → Server → Round
  stops : Server → Round

-- The buffer after the call of read, and the changed counts.
unfoldable pub receive : Server → ReadResult → Outcome Server
receive s (read_error _) = ok (record s {
  used_receive_buffer = (s.used_receive_buffer + 2 ^ 32 - 1) % 2 ^ 32;
  bytes_received = (s.bytes_received + 2 ^ 64 - 1) % 2 ^ 64;
})
receive s (read_bytes bytes) = do
  buffer ← memcpy s.receive_buffer s.used_receive_buffer (length bytes) bytes
  ok (record s {
    receive_buffer = buffer;
    used_receive_buffer = (s.used_receive_buffer + length bytes) % 2 ^ 32;
    bytes_received = (s.bytes_received + length bytes) % 2 ^ 64;
  })

-- From `server_process` to the end of the round.
unfoldable pub process_received : Server → Outcome Round
process_received s = do
  (sent, processed) ← server_process s.used_receive_buffer s.receive_buffer
  buffer ←
      (if processed == 0
        then ok s.receive_buffer
        else memmove processed (s.used_receive_buffer - processed) s.receive_buffer)
  ok (
      goes_on sent (record s {
        receive_buffer = buffer;
        used_receive_buffer = s.used_receive_buffer - processed;
      }))

-- One round of `server_routine`'s loop; the answers of poll and read are arguments.
unfoldable pub server_round : PollFlags → Polled → ReadResult → Server → Outcome Round
unfolding receive process_received
server_round flags polled answer s =
    let (revents, ep) = network_poll flags polled s.ep in
    let s' = record s { ep = ep } in
    if is_flagged revents flags.poll_nval
    then ok (stops s')
    else if is_flagged revents flags.poll_in
    then (if server_halt answer (is_flagged revents flags.poll_hup)
        then ok (stops s')
        else (receive s' answer >>= process_received))
    else ok (goes_on [] s')

-- The loop of `server_routine`, over the answers of poll and read in turn; it ends where the
-- answers do, if nothing ends it before.
unfoldable pub server_routine :
    PollFlags → List (Polled × ReadResult) → Server → Outcome (List (List ℕ) × Server)
server_routine flags [] s = ok ([], s)
server_routine flags ((polled, answer) ∷ answers) s =
    if s.ep.disconnected
    then ok ([], s)
    else (server_round flags polled answer s >>= elim [
      | stops s' ↦ ok ([], s')
      | goes_on sent s' ↦
          server_routine flags answers s' >>= λ (later, end). ok (sent ++ later, end)
    ])
