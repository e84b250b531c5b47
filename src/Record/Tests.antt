-- ===== src/Record/Tests.antt =====
-- Runs of record.c's operations, and the theorems on them at concrete records.
use craftsman_console.Base.{
  ℕ, zero, ◌+◌, ◌-◌, ◌≤◌, ◌≡◌, refl, ap, sym, ◌∙◌, inr, true, List, [], ◌∷◌, ◌++◌, some, arith,
  length, length-append, length-replicate, length-take, take, take-append_add, replicate, ok, fault,
}
use craftsman_console.Record.{
  Allocator, Record, Offset, record_append, record_read, record_playback, record_can_playback,
  record_peek, record_playback_all, advance, initial_bytes,
}
use craftsman_console.Record.Log.{
  encode, IsAllocator, Holds, record_append-Holds, record_append_overrun,
}
use craftsman_console.Record.Read.{AllText, Stands, record_read-next, record_playback_all-commands}
use craftsman_console.Record.Growth.{IsModerate, IsPlentiful, record_append-short}

-- A heap that never runs out and whose blocks are cleared.
abbrev pub heap : Allocator
heap = record {
  malloc = λ n. some (replicate n 0);
  realloc = λ old n. some (take n (old ++ replicate n 0));
}

some_eq : {A : Type 0} (a b : A) → some a ≡ some b → a ≡ b
some_eq a b e = cc

heap_keeps :
    (old : List ℕ) (n : ℕ) (new : List ℕ)
    → heap.realloc old n ≡ some new
    → length old ≤ n
    → (tail : List ℕ) × (new ≡ old ++ tail)
heap_keeps old n new e h =
    let split : n ≡ length old + (n - length old) = omega arith in
    (
      take (n - length old) (replicate n 0),
      sym (some_eq _ new e)
          ∙ ap (λ k. take k (old ++ replicate n 0)) split
          ∙ take-append_add (n - length old) old (replicate n 0),
    )

pub heap-IsAllocator : IsAllocator heap
heap-IsAllocator = record {
  malloc_length = λ n b e. ap length (sym (some_eq (replicate n 0) b e)) ∙ length-replicate n 0;
  realloc_length = λ old n new e.
      ap length (sym (some_eq _ new e))
      ∙ omega (
        arith,
        length-take n (old ++ replicate n 0),
        length-append old (replicate n 0),
        length-replicate n zero,
      );
  realloc_keeps = λ old n new e h. heap_keeps old n new e h;
}

pub heap-IsPlentiful : IsPlentiful heap
heap-IsPlentiful = record { allocator = heap-IsAllocator; never_null = λ old n. (_, refl) }

-- the commands "go" and "stop", in a block of 12 bytes
abbrev pub commands : List (List ℕ)
commands = (b'g' ∷ b'o' ∷ []) ∷ (b's' ∷ b't' ∷ b'o' ∷ b'p' ∷ []) ∷ []

abbrev pub two_commands : Record
two_commands = record { buf = encode commands ++ replicate 4 0; alloc_bytes = 12; used_bytes = 8 }

abbrev pub past_both : Offset
past_both = record { byte_count = 8; command_count = 2 }

pub two_commands-Holds : Holds two_commands past_both commands
two_commands-Holds = record {
  spare = replicate 4 0;
  contents = refl;
  sized = refl;
  used = refl;
  at_end = refl;
  counted = refl;
}

pub commands-AllText : AllText commands
commands-AllText = omega arith

-- a command that needs a larger block
abbrev longer : List ℕ
longer = b'r' ∷ b'i' ∷ b'g' ∷ b'h' ∷ b't' ∷ []

append_longer :
    (rec' : Record) × (record_append heap 5 longer two_commands past_both
      ≡ ok (rec', advance past_both 5))
    × Holds rec' (advance past_both 5) (commands ++ longer ∷ [])
    × (rec'.alloc_bytes ≡ 24)
append_longer =
    record_append-Holds heap two_commands past_both commands longer heap-IsAllocator
      two_commands-Holds
      (record { one_doubling = omega arith; in_range = omega arith; count_in_range = omega arith })
      (inr (_, refl))

-- a command of 17 bytes, which a block of 24 bytes has no room for
append_too_long : record_append heap 17 (replicate 17 b'x') two_commands past_both ≡ fault
append_too_long =
    record_append_overrun heap two_commands past_both (replicate 17 b'x') _ heap-IsAllocator
      (omega arith) (omega arith) (omega arith) refl

abbrev pub past_first : Offset
past_first = record { byte_count = 3; command_count = 1 }

read_second :
    (record_read two_commands past_first
      ≡ ok (some (b's' ∷ b't' ∷ b'o' ∷ b'p' ∷ []), advance past_first 4))
    × (record_playback two_commands past_first
        ≡ ok (true, (b's' ∷ b't' ∷ b'o' ∷ b'p' ∷ []) ∷ [], advance past_first 4))
    × (record_can_playback two_commands past_first ≡ true)
    × (record_peek two_commands past_first ≡ some 3)
    × Stands (advance past_first 4) commands
read_second =
    record_read-next two_commands past_both past_first ((b'g' ∷ b'o' ∷ []) ∷ [])
      (b's' ∷ b't' ∷ b'o' ∷ b'p' ∷ []) [] two_commands-Holds
      (record { bytes_read = refl; commands_read = refl }) (omega arith) (omega arith) (omega arith)

playback_both : record_playback_all two_commands ≡ ok commands
playback_both =
    record_playback_all-commands two_commands past_both commands two_commands-Holds commands-AllText
      (omega arith)

-- The record that `record_alloc` makes.
abbrev pub empty_record : Record
empty_record = record {
  buf = replicate initial_bytes 0;
  alloc_bytes = initial_bytes;
  used_bytes = 0;
}

abbrev pub start : Offset
start = record { byte_count = 0; command_count = 0 }

pub empty_record-Holds : Holds empty_record start []
empty_record-Holds = record {
  spare = replicate initial_bytes 0;
  contents = refl;
  sized = length-replicate initial_bytes zero;
  used = refl;
  at_end = refl;
  counted = refl;
}

pub empty_record-IsModerate : IsModerate empty_record
empty_record-IsModerate = record { at_least = omega arith; at_most = omega arith }

append_first :
    (rec' : Record) × (record_append heap 5 longer empty_record start ≡ ok (rec', advance start 5))
    × Holds rec' (advance start 5) (longer ∷ [])
    × IsModerate rec'
append_first =
    record_append-short heap empty_record start [] longer heap-IsPlentiful empty_record-Holds
      empty_record-IsModerate (omega arith) (omega arith)

-- A record of the first command only.
abbrev first_only : Record
first_only = record {
  buf = encode ((b'g' ∷ b'o' ∷ []) ∷ []) ++ 0 ∷ [];
  alloc_bytes = 4;
  used_bytes = 3;
}

-- A record of another command.
abbrev other_first : Record
other_first = record first_only { buf = encode ((b'g' ∷ b'a' ∷ []) ∷ []) ++ 0 ∷ [] }
