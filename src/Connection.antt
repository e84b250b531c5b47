-- ===== src/Connection.antt =====
-- connection.c: the client's end of the network, which sorts the frames received into a record for
-- each player.
pub mod Frames
pub mod Print
pub mod Delivery
pub mod Processing
pub mod Start
pub mod Waiting
pub mod Sync
pub mod Tests
use Prim.Native.Nat.{bit_and}
use craftsman_console.Base.{
  ℕ, zero, suc, ◌+◌, ◌-◌, ◌*◌, ◌%◌, ◌^◌, Bool, true, false, not, List, [], ◌∷◌, Option, none, some,
  leb, ltb, ◌==◌, if◌then◌else◌, length, get_elem?, get_or, set, drop, cstring, memcpy, memmove,
  Outcome, ok, crash, fault, or_fault, ◌>>=◌, ◌>>◌,
}
use craftsman_console.Base.Int.{
  ℤ, pos, negsuc, pos_part, ◌+ℤ◌, ◌-ℤ◌, ◌*ℤ◌, ltb_ℤ, signed32, size_of_int,
}
use craftsman_console.Record.{Allocator, Record, RecordRw, Offset, u32, record_alloc, record_append}
use craftsman_console.Network.{PollFlags, Polled, EndPoint, network_poll, is_flagged}

abbrev pub max_player : ℕ
max_player = 4

abbrev pub receive_max : ℕ
receive_max = 4096

-- the statics of connection.c
pub record Connection : Type 0 where
  pub client_ep : EndPoint
  pub receive_buffer : List ℕ
  pub used_receive_buffer : ℕ
  pub bytes_received : ℕ
  pub bytes_processed : List ℕ
  pub messages_processed : List ℕ
  pub buffering : Bool

-- A `char` as an `int`; whether `char` is signed is the platform's choice, `signed`.
abbrev pub char_int : Bool → ℕ → ℤ
char_int true c = if leb 128 c then pos c -ℤ pos 256 else pos c
char_int false c = pos c

unfoldable pub digit_atoi : Bool → ℕ → ℤ
digit_atoi signed c = char_int signed c -ℤ pos b'0'

-- The three bytes at the pointer.
unfoldable pub fixed_atoi : Bool → List ℕ → Outcome ℤ
unfolding digit_atoi
fixed_atoi signed (a ∷ b ∷ c ∷ _) =
    ok (digit_atoi signed a *ℤ pos 100 +ℤ digit_atoi signed b *ℤ pos 10 +ℤ digit_atoi signed c)
fixed_atoi signed _ = fault

-- `*(int *)p` on a machine that stores the lowest byte first
unfoldable pub load_int : List ℕ → Outcome ℤ
load_int (a ∷ b ∷ c ∷ d ∷ _) = ok (signed32 (a + b * 2 ^ 8 + c * 2 ^ 16 + d * 2 ^ 24))
load_int _ = fault

-- `connection_io`, with poll's answer and read's: `none` is -1.
unfoldable pub connection_io :
    PollFlags → Polled → Option (List ℕ) → Connection → Outcome (Bool × Connection)
connection_io flags polled answer c =
    if c.client_ep.disconnected
    then ok (false, c)
    else polled_io (network_poll flags polled c.client_ep)
  where
    read_io : Option (List ℕ) → ℕ → Connection → Outcome (Bool × Connection)
    read_io none events c' =
        ok (false, record c' { bytes_received = u32 (c'.bytes_received + 2 ^ 32 - 1) })
    read_io (some bytes) events c' = do
      buffer ← memcpy c'.receive_buffer c'.used_receive_buffer (length bytes) bytes
      ok (
        if is_flagged events flags.poll_hup then not (length bytes == 0) else true,
        record c' {
          receive_buffer = buffer;
          used_receive_buffer = c'.used_receive_buffer + length bytes;
          bytes_received = u32 (c'.bytes_received + length bytes);
        },
      )

    polled_io : ℕ × EndPoint → Outcome (Bool × Connection)
    polled_io (events, ep) =
        let c' = record c { client_ep = ep } in
        if not (is_flagged events flags.poll_out)
        then ok (false, c')
        else if is_flagged events flags.poll_in
        then read_io answer events c'
        else ok (true, c')

-- How a round of `connection_processing`'s loop ends: by `break`, by `return false` with a changed
-- recording, or with the next round.
pub data Progress : Type 0 where
  waits : Progress
  changes : List RecordRw → Progress
  goes_on : Connection → List RecordRw → Progress

abbrev pub bump : ℕ → ℕ → List ℕ → List ℕ
bump i n counts = set counts i (u32 (get_or counts i 0 + n))

-- The frame at the front of the buffer goes to `recording[client_id]`.
unfoldable pub process_frame :
    Allocator → ℤ → ℤ → ℕ → Connection → List RecordRw → RecordRw → Outcome Progress
process_frame m block_len len client_id c recording entry = elim entry.rec [
  | none ↦ do
    rec ← record_alloc m
    ok (changes (set recording client_id (record entry { rec = some rec })))
  | some rec ↦ do
    (rec', write) ←
        record_append m (size_of_int (block_len -ℤ pos 1)) (drop 8 c.receive_buffer) rec
          entry.write_offset
    buffer ← memmove (pos_part len) (receive_max - pos_part len) c.receive_buffer
    ok (
        goes_on
          (record c {
            receive_buffer = buffer;
            used_receive_buffer = c.used_receive_buffer - pos_part len;
            bytes_processed = bump client_id (pos_part len) c.bytes_processed;
            messages_processed = bump client_id 1 c.messages_processed;
          })
          (set recording client_id (record entry { rec = some rec'; write_offset = write })))
]

-- `recording[client_id]`
unfoldable pub player_of : List RecordRw → ℤ → Outcome (ℕ × RecordRw)
player_of recording (negsuc _) = fault
player_of recording (pos k) =
    if leb max_player k
    then crash
    else (or_fault (get_elem? recording k) >>= λ entry. ok (k, entry))

-- The two strings that are printed of a message with a length above 9.
unfoldable pub print_big : ℤ → List ℕ → Outcome (Unit {0})
print_big len buffer =
    if ltb_ℤ (pos 9) len
    then (or_fault (cstring (drop 4 buffer)) >>= λ _.
        or_fault (cstring (drop 8 buffer)) >>= λ _. ok tt)
    else ok tt

-- A round of the loop, once the length of the frame is known. A length that is no `int` overflows.
unfoldable pub round_of_length :
    Allocator → Bool → ℤ → ℤ → Connection → List RecordRw → Outcome Progress
round_of_length m signed block_len len c recording =
    if ltb_ℤ (pos (2 ^ 31 - 1)) len
    then fault
    else if ltb_ℤ (pos c.used_receive_buffer) len
    then ok waits
    else do
      print_big len c.receive_buffer
      id ← fixed_atoi signed (drop 4 c.receive_buffer)
      (client_id, entry) ← player_of recording id
      process_frame m block_len len client_id c recording entry

-- A round of the loop, at `used_receive_buffer >= 8`.
unfoldable pub processing_round : Allocator → Bool → Connection → List RecordRw → Outcome Progress
unfolding round_of_length
processing_round m signed c recording = do
  block_len ← load_int c.receive_buffer
  round_of_length m signed block_len (pos 8 +ℤ block_len) c recording

-- The loop. A round takes 8 bytes at least, so as many rounds as there are bytes are enough.
unfoldable pub processing_loop :
    ℕ → Allocator → Bool → Connection → List RecordRw → Outcome (Bool × Connection × List RecordRw)
processing_loop zero m signed c recording =
    if ltb c.used_receive_buffer 8 then ok (true, c, recording) else fault
processing_loop (suc fuel) m signed c recording = elim (ltb c.used_receive_buffer 8) [
  | true ↦ ok (true, c, recording)
  | false ↦ processing_round m signed c recording >>= elim [
    | waits ↦ ok (true, c, recording)
    | changes recording' ↦ ok (false, c, recording')
    | goes_on c' recording' ↦ processing_loop fuel m signed c' recording'
  ]
]

unfoldable pub connection_processing :
    Allocator → Bool → Connection → List RecordRw → Outcome (Bool × Connection × List RecordRw)
unfolding processing_loop
connection_processing m signed c recording =
    processing_loop c.used_receive_buffer m signed c recording
