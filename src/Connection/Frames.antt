-- ===== src/Connection/Frames.antt =====
-- What a round of connection_processing of connection.c does with a frame.
use craftsman_console.Base.{
  ℕ, ◌+◌, ◌-◌, ◌^◌, ◌≤◌, ◌<◌, ◌≡◌, ap, inl, inr, Option-cases, ◌∙◌, Bool, true, false, List, [],
  ◌∷◌, ◌++◌, append_assoc, arith, some, none, length, length-append, drop, set, get_elem?, cstring,
  cstring-text, IsText, ok, memcpy_prefix, memmove, memmove_tail, length-drop,
}
use craftsman_console.Base.Int.{pos, ◌+ℤ◌, ◌-ℤ◌, size_of_int}
use craftsman_console.Record.{
  Allocator, Record, RecordRw, Offset, u64, needed_bytes, record_alloc, record_realloc,
  record_append, append_bytes,
}
use craftsman_console.Server.{le32}
use craftsman_console.Connection.{
  Connection, max_player, receive_max, fixed_atoi, load_int, changes, goes_on, bump, process_frame,
  player_of, print_big, round_of_length, processing_round,
}

-- The first 8 bytes of a frame for a player, and the frame.
abbrev pub header : ℕ → List ℕ → List ℕ
header k t = le32 (length t + 1) ++ b'0' ∷ b'0' ∷ (b'0' + k) ∷ 0 ∷ []

abbrev pub frame : ℕ → List ℕ → List ℕ
frame k t = header k t ++ (t ++ 0 ∷ [])

pub load_int-le32 : (n : ℕ) (rest : List ℕ) → n < 2 ^ 31 → load_int (le32 n ++ rest) ≡ ok (pos n)
unfolding load_int
load_int-le32 n rest h = ap ok (ground arith)

fixed_atoi-player :
    (signed : Bool) (k : ℕ) (rest : List ℕ)
    → k < max_player
    → fixed_atoi signed (b'0' ∷ b'0' ∷ (b'0' + k) ∷ rest) ≡ ok (pos k)
unfolding fixed_atoi
fixed_atoi-player true k rest h = ap ok (ground arith)
fixed_atoi-player false k rest h = ap ok (ground arith)

pub pos_sum : (n : ℕ) → pos 8 +ℤ pos (n + 1) ≡ pos (9 + n)
pos_sum n = ground arith

-- The terminator is no part of the command.
command_size : (n : ℕ) → size_of_int (pos (n + 1) -ℤ pos 1) ≡ n
command_size n = ground arith

-- Copying to a record reads only the bytes of the command.
append_bytes-prefix :
    (t more : List ℕ) (rec : Record) (off : Offset)
    → append_bytes rec off (length t) (t ++ more) ≡ append_bytes rec off (length t) t
unfolding append_bytes
append_bytes-prefix t more rec off = simp memcpy_prefix

pub record_append-prefix :
    (m : Allocator) (t more : List ℕ) (rec : Record) (off : Offset)
    → record_append m (length t) (t ++ more) rec off ≡ record_append m (length t) t rec off
unfolding record_append
record_append-prefix m t more rec off =
    elim (Option-cases
      (record_realloc m rec (u64 (needed_bytes off (length t) + 2 ^ 64 - rec.alloc_bytes)))) [
        | inl e ↦ rw (e, record_append)
        | inr (rec', e) ↦ rw (e, record_append) (append_bytes-prefix t more rec' off)
      ]

-- The connection has the bytes received and not processed at the front of its buffer.
pub record Buffers (c : Connection) (bytes : List ℕ) : Type 0 where
  pub spare : List ℕ
  pub contents : c.receive_buffer ≡ bytes ++ spare
  pub full_size : length c.receive_buffer ≡ receive_max
  pub used : c.used_receive_buffer ≡ length bytes

module _ (m : Allocator) (signed : Bool) (c : Connection) (recording : List RecordRw) (k : ℕ)
    (t rest : List ℕ) (b : Buffers c (frame k t ++ rest)) (player : k < max_player)
    (text : IsText t) (entry : RecordRw) (there : get_elem? recording k ≡ some entry) where
  -- the buffer behind the header
  body : drop 8 c.receive_buffer ≡ t ++ 0 ∷ (rest ++ b.spare)
  body = ap (drop 8) b.contents ∙ simp append_assoc

  sizes : length (frame k t ++ rest) ≡ 9 + length t + length rest
  sizes = omega (arith, length-append (t ++ 0 ∷ []) rest, length-append t (0 ∷ []))

  pub fits_buffer : 9 + length t + length rest ≤ receive_max
  fits_buffer =
      omega
        (arith, b.full_size, ap length b.contents, length-append (frame k t ++ rest) b.spare, sizes)

  load_lem : load_int c.receive_buffer ≡ ok (pos (length t + 1))
  load_lem = rw b.contents (load_int-le32 (length t + 1) _ (omega (arith, fits_buffer)))

  atoi_lem : fixed_atoi signed (drop 4 c.receive_buffer) ≡ ok (pos k)
  atoi_lem = rw b.contents (fixed_atoi-player signed k _ player)

  player_lem : player_of recording (pos k) ≡ ok (k, entry)
  unfolding player_of
  player_lem = ground arith

  print_lem : print_big (pos (9 + length t)) c.receive_buffer ≡ ok tt
  unfolding print_big
  print_lem =
      let id_string : cstring (drop 4 c.receive_buffer) ≡ some (b'0' ∷ b'0' ∷ (b'0' + k) ∷ []) =
        rw b.contents (
          cstring-text (b'0' ∷ b'0' ∷ (b'0' + k) ∷ []) (((t ++ 0 ∷ []) ++ rest) ++ b.spare)
            (omega arith)) in
      let message : cstring (drop 8 c.receive_buffer) ≡ some t =
        rw body (cstring-text t (rest ++ b.spare) text) in
      ground arith

  round_of_length_lem :
      round_of_length m signed (pos (length t + 1)) (pos (9 + length t)) c recording
      ≡ process_frame m (pos (length t + 1)) (pos (9 + length t)) k c recording entry
  unfolding round_of_length
  round_of_length_lem = ground (arith, print_lem, atoi_lem, player_lem, fits_buffer, sizes, b.used)

  round_lem :
      processing_round m signed c recording
      ≡ process_frame m (pos (length t + 1)) (pos (9 + length t)) k c recording entry
  unfolding processing_round
  round_lem = rw load_lem (rw (pos_sum (length t)) round_of_length_lem)

  -- The first frame for a player that is not there yet makes a record for the player and is left in
  -- the buffer.
  pub round-absent :
      (rec : Record)
      → entry.rec ≡ none
      → record_alloc m ≡ ok rec
      → processing_round m signed c recording
        ≡ ok (changes (set recording k (record entry { rec = some rec })))
  unfolding process_frame
  round-absent rec absent made = round_lem ∙ rw (absent, made)

  -- the connection behind the frame
  pub behind : Connection
  behind = record c {
    receive_buffer = rest ++ b.spare ++ drop (receive_max - (9 + length t)) c.receive_buffer;
    used_receive_buffer = c.used_receive_buffer - (9 + length t);
    bytes_processed = bump k (9 + length t) c.bytes_processed;
    messages_processed = bump k 1 c.messages_processed;
  }

  moved_lem :
      memmove (9 + length t) (receive_max - (9 + length t)) c.receive_buffer
      ≡ ok (rest ++ b.spare ++ drop (receive_max - (9 + length t)) c.receive_buffer)
  moved_lem =
      rw (b.contents, append_assoc (frame k t) rest b.spare)
        (memmove_tail (frame k t) (rest ++ b.spare) (9 + length t) (receive_max - (9 + length t))
          (omega (arith, length-append t (0 ∷ [])))
          (omega (
            arith,
            b.full_size,
            ap length b.contents,
            length-append (frame k t ++ rest) b.spare,
            length-append rest b.spare,
            sizes,
          )))

  pub behind-Buffers : Buffers behind rest
  unfolding behind
  behind-Buffers = record {
    spare = b.spare ++ drop (receive_max - (9 + length t)) c.receive_buffer;
    contents = append_assoc rest b.spare (drop (receive_max - (9 + length t)) c.receive_buffer);
    full_size = omega (
      arith,
      length-append (rest ++ b.spare) (drop (receive_max - (9 + length t)) c.receive_buffer),
      length-append rest b.spare,
      length-drop (receive_max - (9 + length t)) c.receive_buffer,
      b.full_size,
      ap length b.contents,
      length-append (frame k t ++ rest) b.spare,
      sizes,
    );
    used = omega (arith, b.used, sizes);
  }

  -- A frame for a player that is there is appended to the player's record, and leaves the buffer.
  pub round-present :
      (rec rec' : Record) (write : Offset)
      → entry.rec ≡ some rec
      → record_append m (length t) t rec entry.write_offset ≡ ok (rec', write)
      → processing_round m signed c recording
        ≡ ok (
            goes_on behind
              (set recording k (record entry { rec = some rec'; write_offset = write })))
  unfolding process_frame behind
  round-present rec rec' write present appended =
      round_lem
      ∙ rw (
        present,
        command_size (length t),
        body,
        record_append-prefix m t (0 ∷ (rest ++ b.spare)) rec entry.write_offset,
        appended,
        moved_lem,
      )
