-- ===== src/Record.antt =====
-- record.c: a growing buffer of commands, each followed by a terminator, with offsets into it.
pub mod Log
pub mod Read
pub mod Growth
pub mod Clone
pub mod Tests
use craftsman_console.Print.{number, pointer, Printed, printf}
use craftsman_console.Base.{
  ℕ, zero, suc, ◌+◌, ◌-◌, ◌*◌, ◌%◌, ◌^◌, min, Bool, true, false, List, [], ◌∷◌, Option, none, some,
  ltb, leb, ◌==◌, if◌then◌else◌, length, take, drop, replicate, cstring, memcpy, store, Outcome, ok,
  crash, fault, ◌>>=◌, ◌>>◌, guard, or_fault,
}
use Prim.Native.Nat.{Ordering, compare}

-- stdlib.h's allocator, at the calls of one run: `none` is the null pointer.
pub record Allocator : Type 0 where
  pub malloc : ℕ → Option (List ℕ)
  pub realloc : List ℕ → ℕ → Option (List ℕ)

-- `Record_t`. The length of `buf` is the size of the block that `buf` points to.
pub record Record : Type 0 where
  pub buf : List ℕ
  pub alloc_bytes : ℕ
  pub used_bytes : ℕ

-- `RecordOffset_t`
pub record Offset : Type 0 where
  pub byte_count : ℕ
  pub command_count : ℕ

-- `RecordRW_t`
pub record RecordRw : Type 0 where
  pub rec : Option Record
  pub read_offset : Offset
  pub write_offset : Offset

abbrev pub u32 : ℕ → ℕ
u32 n = n % 2 ^ 32

abbrev pub u64 : ℕ → ℕ
u64 n = n % 2 ^ 64

-- A `size_t` that is converted to `int` keeps its low 32 bits; this tests `0 < n` of the result.
abbrev pub is_positive_int : ℕ → Bool
is_positive_int n = if ltb 0 (u32 n) then ltb (u32 n) (2 ^ 31) else false

abbrev pub initial_bytes : ℕ
initial_bytes = 4 * 1024

-- A null `buf` is a block of no bytes. The record itself is `sizeof(Record_t)` bytes.
unfoldable pub record_alloc : Allocator → Outcome Record
record_alloc m = do
  _ ← or_fault (m.malloc 16)
  ok (record { buf = block (m.malloc initial_bytes); alloc_bytes = initial_bytes; used_bytes = 0 })
  where
    block : Option (List ℕ) → List ℕ
    block none = []
    block (some b) = b

-- `none` is the return value false.
unfoldable pub record_realloc : Allocator → Record → ℕ → Option Record
record_realloc m rec bytes_needed =
    if is_positive_int bytes_needed
    then grown (m.realloc rec.buf (u32 (rec.alloc_bytes * 2)))
    else some rec
  where
    grown : Option (List ℕ) → Option Record
    grown none = none
    grown (some new_buf) =
        some (record rec { buf = new_buf; alloc_bytes = u32 (rec.alloc_bytes * 2) })

-- `byte_offset + len + 1`
abbrev pub needed_bytes : Offset → ℕ → ℕ
needed_bytes off len = u64 (off.byte_count + len + 1)

unfoldable pub append_bytes : Record → Offset → ℕ → List ℕ → Outcome (Record × Offset)
append_bytes rec off len input = do
  copied ← memcpy rec.buf off.byte_count len input
  ended ← store copied (u64 (off.byte_count + len)) 0
  ok (
    record rec {
      buf = ended;
      used_bytes = u32 (
          if ltb (needed_bytes off len) rec.used_bytes
          then rec.used_bytes
          else needed_bytes off len);
    },
    record {
      byte_count = u32 (off.byte_count + len + 1);
      command_count = u32 (off.command_count + 1);
    },
  )

-- `record_append`, which returns true or does not return. `input` is the object behind the pointer.
unfoldable pub record_append : Allocator → ℕ → List ℕ → Record → Offset → Outcome (Record × Offset)
record_append m len input rec off =
    elim (record_realloc m rec (u64 (needed_bytes off len + 2 ^ 64 - rec.alloc_bytes))) [
      | none ↦ crash
      | some rec' ↦ append_bytes rec' off len input
    ]

unfoldable pub record_can_playback : Record → Offset → Bool
record_can_playback rec off = if leb rec.used_bytes off.byte_count then false else true

-- the offset past a command of `len` bytes
abbrev pub advance : Offset → ℕ → Offset
advance off len = record {
  byte_count = u32 (off.byte_count + len + 1);
  command_count = u32 (off.command_count + 1);
}

-- The string at a pointer into the buffer; the pointer's bytes are its length.
abbrev pub string_at : Record → ℕ → Outcome (List ℕ)
string_at rec i = or_fault (cstring (drop i rec.buf))

-- The calls of `handler` are the list in the result.
unfoldable pub record_playback : Record → Offset → Outcome (Bool × List (List ℕ) × Offset)
record_playback rec off =
    if leb rec.used_bytes off.byte_count
    then ok (false, [], off)
    else do s ← string_at rec off.byte_count; ok (true, s ∷ [], advance off (length s))

-- `none` is the null pointer; a pointer is an index into `buf`.
unfoldable pub record_peek : Record → Offset → Option ℕ
record_peek rec off = if leb rec.used_bytes off.byte_count then none else some off.byte_count

-- The command behind the returned pointer, with `*len` as its length.
unfoldable pub record_read : Record → Offset → Outcome (Option (List ℕ) × Offset)
record_read rec off =
    if leb rec.used_bytes off.byte_count
    then ok (none, off)
    else do cmd ← string_at rec off.byte_count; ok (some cmd, advance off (length cmd))

-- `some` holds what is copied to the caller's buffer of `len` bytes.
unfoldable pub record_read_bytes : Record → Offset → ℕ → Outcome (Option (List ℕ) × Offset)
record_read_bytes rec off len =
    if leb rec.used_bytes (u64 (off.byte_count + len)) then ok (none, off) else do
      bytes ← memcpy (replicate len 0) 0 len (drop off.byte_count rec.buf)
      ok (some bytes, advance off len)

-- The loop of `record_playback_all`; `i` is the 32 bits of the `int`, which are compared without a sign, and
-- the place of a negative one is before the block. Each round goes on by at least one byte, so
-- `used_bytes` rounds are enough where the index does not wrap.
unfoldable pub playback_from : ℕ → Record → ℕ → Outcome (List (List ℕ))
playback_from zero rec i = if ltb i rec.used_bytes then fault else ok []
playback_from (suc fuel) rec i = elim (ltb i rec.used_bytes) [
  | false ↦ ok []
  | true ↦
      guard (ltb i (2 ^ 31))
      >> (string_at rec i >>= λ s.
          playback_from fuel rec ((i + length s + 1) % 2 ^ 32) >>= λ later. ok (s ∷ later))
]

unfoldable pub record_playback_all : Record → Outcome (List (List ℕ))
unfolding playback_from
record_playback_all rec = playback_from rec.used_bytes rec 0

-- The bytes written to the file, where it can be opened; `none` is the return value false.
unfoldable pub record_to_disk : Record → Bool → Option (List ℕ)
record_to_disk rec opened = if opened then some (take rec.used_bytes rec.buf) else none

unfoldable pub record_length : Record → ℕ
record_length rec = rec.used_bytes

-- `memcmp`: the order of the first bytes that differ
unfoldable pub memcmp : ℕ → List ℕ → List ℕ → Outcome Ordering
memcmp zero xs ys = ok Ordering.eq
memcmp (suc n) (x ∷ xs) (y ∷ ys) = if x == y then memcmp n xs ys else ok (compare x y)
memcmp (suc n) _ _ = fault

unfoldable pub record_compare : Record → Record → Outcome Ordering
unfolding memcmp
record_compare lhs rhs = memcmp (min lhs.used_bytes rhs.used_bytes) lhs.buf rhs.buf

-- The clone has a block of its own.
unfoldable pub record_clone : Allocator → Record → Outcome Record
record_clone m rec = do
  _ ← or_fault (m.malloc 16)
  block ← or_fault (m.malloc rec.alloc_bytes)
  copied ← memcpy block 0 rec.used_bytes rec.buf
  ok (record rec { buf = copied })

unfoldable pub record_reset : Record → Record
record_reset rec = record rec { used_bytes = 0 }

-- The blocks that are freed, apart from the record's own: a null pointer has none.
unfoldable pub record_free : Option Record → List (List ℕ)
record_free none = []
record_free (some rec) = rec.buf ∷ []

-- The pointer's value is an argument.
unfoldable pub record_debug : ℕ → Record → List Printed
record_debug address rec =
    printf "%p: %d alloc %d used\n"
      (pointer address ∷ number rec.alloc_bytes ∷ number rec.used_bytes ∷ [])
    ∷ []
