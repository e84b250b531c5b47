-- ===== src/Record/Growth.antt =====
-- How large the block of record.c's records gets, and that short commands always fit.
use craftsman_console.Base.{
  ℕ, ◌+◌, ◌*◌, ◌^◌, ◌≤◌, ◌<◌, ◌≡◌, ap, List, [], ◌∷◌, ◌++◌, arith, some, inl, inr, ltb, ltb→lt,
  Bool-cases, if◌then◌else◌, length, length-append, ok,
}
use craftsman_console.Record.{Allocator, Record, Offset, initial_bytes, record_append, advance}
use craftsman_console.Record.Log.{encode, IsAllocator, Holds, Fits, record_append-Holds}

-- The block is at least the first one, and at most what the bytes held called for.
pub record IsModerate (rec : Record) : Type 0 where
  pub at_least : initial_bytes ≤ rec.alloc_bytes
  pub at_most : rec.alloc_bytes ≤ initial_bytes + 2 * rec.used_bytes

-- An allocator that does not run out.
pub record IsPlentiful (m : Allocator) : Type 0 where
  pub allocator : IsAllocator m
  pub never_null : (old : List ℕ) (n : ℕ) → (block : List ℕ) × (m.realloc old n ≡ some block)

pub length-le-encode : (cmds : List (List ℕ)) → length cmds ≤ length (encode cmds)
length-le-encode [] = omega arith
length-le-encode (c ∷ cs) = omega (arith, length-le-encode cs, length-append c (0 ∷ encode cs))

pub used-le-alloc :
    (rec : Record) (off : Offset) (cmds : List (List ℕ))
    → Holds rec off cmds
    → rec.used_bytes ≤ rec.alloc_bytes
used-le-alloc rec off cmds h =
    omega (arith, h.used, h.sized, ap length h.contents, length-append (encode cmds) h.spare)

-- Doubling only a block that is too small keeps it moderate.
grown-IsModerate :
    (rec rec' : Record) (needed : ℕ)
    → IsModerate rec
    → rec.used_bytes ≤ needed
    → rec'.used_bytes ≡ needed
    → rec'.alloc_bytes
      ≡ (if ltb rec.alloc_bytes needed then rec.alloc_bytes * 2 else rec.alloc_bytes)
    → IsModerate rec'
grown-IsModerate rec rec' needed moderate more used grew =
    elim (Bool-cases (ltb rec.alloc_bytes needed)) [
      | inl small ↦
          let doubled = rw small at grew in
          let less = ltb→lt rec.alloc_bytes needed small in
          omega (arith, doubled, less, used, moderate)
      | inr enough ↦ let same = rw enough at grew in omega (arith, same, more, used, moderate)
    ]

-- While a record holds fewer than 2 ^ 28 bytes and its block is moderate, a command of fewer than
-- 4096 bytes is appended to it whatever it holds, by an allocator that does not run out, and the
-- block stays moderate.
pub record_append-short :
    (m : Allocator) (rec : Record) (off : Offset) (cmds : List (List ℕ)) (c : List ℕ)
    → IsPlentiful m
    → Holds rec off cmds
    → IsModerate rec
    → length c < initial_bytes
    → rec.used_bytes < 2 ^ 28
    → (rec' : Record) × (record_append m (length c) c rec off ≡ ok (rec', advance off (length c)))
      × Holds rec' (advance off (length c)) (cmds ++ c ∷ [])
      × IsModerate rec'
record_append-short m rec off cmds c plenty h moderate short small =
    let fits : Fits rec off (length c) = omega (
      arith,
      h.at_end,
      h.used,
      h.counted,
      moderate.at_least,
      moderate.at_most,
      length-le-encode cmds,
      used-le-alloc rec off cmds h,
    ) in
    let (rec', e, h', grew) =
      record_append-Holds m rec off cmds c plenty.allocator h fits (inr (plenty.never_null _ _)) in
    let used : rec'.used_bytes ≡ off.byte_count + length c + 1 =
      omega (arith, h'.at_end, fits.one_doubling, fits.in_range) in
    (rec', e, h', grown-IsModerate rec rec' _ moderate (omega (arith, h.at_end)) used grew)
