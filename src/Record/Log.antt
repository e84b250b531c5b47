-- ===== src/Record/Log.antt =====
-- A record as the log of its commands: record.c's `record_append` and `record_read` on it.
use craftsman_console.Base.{
  ℕ, ◌+◌, ◌-◌, ◌*◌, ◌^◌, ◌≤◌, ◌<◌, ◌≡◌, refl, ap, sym, ◌∙◌, ◌⊎◌, inl, inr, List, [], ◌∷◌, ◌++◌,
  append_assoc, some, arith, ltb, ltb→lt, if◌then◌else◌, Bool-cases, length, length-append, drop,
  drop-cons, memcpy, store, memcpy-append, store-append, memcpy_outside, memcpy_inside,
  store_outside, ok, fault,
}
use craftsman_console.Record.{
  Allocator, Record, Offset, u64, record_realloc, append_bytes, record_append, advance,
}

-- The bytes of a list of commands: each is followed by its terminator.
abbrev pub encode : List (List ℕ) → List ℕ
encode [] = []
encode (c ∷ cs) = c ++ 0 ∷ encode cs

pub encode-append : (cs ds : List (List ℕ)) → encode (cs ++ ds) ≡ encode cs ++ encode ds
encode-append [] ds = refl
encode-append (c ∷ cs) ds =
    ap (λ t. c ++ 0 ∷ t) (encode-append cs ds) ∙ sym (append_assoc c (0 ∷ encode cs) (encode ds))

-- What realloc documents: the block has the size asked for and begins with the old bytes.
pub record IsAllocator (m : Allocator) : Type 0 where
  pub malloc_length : (n : ℕ) (b : List ℕ) → m.malloc n ≡ some b → length b ≡ n
  pub realloc_length :
      (old : List ℕ) (n : ℕ) (new : List ℕ) → m.realloc old n ≡ some new → length new ≡ n
  pub realloc_keeps :
      (old : List ℕ) (n : ℕ) (new : List ℕ)
      → m.realloc old n ≡ some new
      → length old ≤ n
      → (tail : List ℕ) × (new ≡ old ++ tail)

-- `rec` holds the commands `cmds`, `off` is the offset past the last one, and the record's block is
-- `alloc_bytes` long.
pub record Holds (rec : Record) (off : Offset) (cmds : List (List ℕ)) : Type 0 where
  pub spare : List ℕ
  pub contents : rec.buf ≡ encode cmds ++ spare
  pub sized : length rec.buf ≡ rec.alloc_bytes
  pub used : rec.used_bytes ≡ length (encode cmds)
  pub at_end : off.byte_count ≡ rec.used_bytes
  pub counted : off.command_count ≡ length cmds

-- The room that an append leaves to the code: one doubling suffices and no 32-bit count wraps.
pub record Fits (rec : Record) (off : Offset) (len : ℕ) : Type 0 where
  pub one_doubling : off.byte_count + len + 1 ≤ rec.alloc_bytes * 2
  pub in_range : rec.alloc_bytes * 2 < 2 ^ 31
  pub count_in_range : off.command_count + 1 < 2 ^ 32

-- Where the block is long enough, the command and its terminator go behind those held.
module _ (rec : Record) (off : Offset) (cmds : List (List ℕ)) (c : List ℕ) (h : Holds rec off cmds)
    (room : off.byte_count + length c + 1 ≤ rec.alloc_bytes)
    (small : rec.alloc_bytes < 2 ^ 32) where
  spare_room : length c < length h.spare
  spare_room = omega (arith, h.sized, ap length h.contents, length-append (encode cmds) h.spare)

  copy_command :
      (b : ℕ) (rest : List ℕ)
      → drop (length c) h.spare ≡ b ∷ rest
      → memcpy rec.buf off.byte_count (length c) c ≡ ok ((encode cmds ++ c) ++ b ∷ rest)
  copy_command b rest e =
      ap (λ t. memcpy t off.byte_count (length c) c) h.contents
      ∙ memcpy-append (encode cmds) h.spare c off.byte_count (length c) (h.at_end ∙ h.used) refl
          (omega (arith, spare_room))
      ∙ ap (λ t. ok (encode cmds ++ (c ++ t))) e
      ∙ ap ok (sym (append_assoc (encode cmds) c (b ∷ rest)))

  end_command :
      (b : ℕ) (rest : List ℕ)
      → store ((encode cmds ++ c) ++ b ∷ rest) (u64 (off.byte_count + length c)) 0
        ≡ ok ((encode cmds ++ c) ++ 0 ∷ rest)
  end_command b rest =
      store-append (encode cmds ++ c) rest b 0 (u64 (off.byte_count + length c))
        (omega (arith, h.used, h.at_end, length-append (encode cmds) c))

  appended : List ℕ → Record
  appended rest = record rec {
    buf = (encode cmds ++ c) ++ 0 ∷ rest;
    used_bytes = off.byte_count + length c + 1;
  }

  append_bytes_lem :
      (b : ℕ) (rest : List ℕ)
      → drop (length c) h.spare ≡ b ∷ rest
      → append_bytes rec off (length c) c ≡ ok (appended rest, advance off (length c))
  unfolding append_bytes appended
  append_bytes_lem b rest e =
      rw (copy_command b rest e, end_command b rest) (ground (arith, h.at_end))

  encode_snoc : (rest : List ℕ) → (encode cmds ++ c) ++ 0 ∷ rest ≡ encode (cmds ++ c ∷ []) ++ rest
  encode_snoc rest = simp (encode-append, append_assoc)

  appended-Holds :
      (b : ℕ) (rest : List ℕ)
      → drop (length c) h.spare ≡ b ∷ rest
      → length h.spare ≡ length c + 1 + length rest
      → off.command_count + 1 < 2 ^ 32
      → Holds (appended rest) (advance off (length c)) (cmds ++ c ∷ [])
  unfolding appended
  appended-Holds b rest e l few = record {
    spare = rest;
    contents = encode_snoc rest;
    sized = omega (
      arith,
      h.sized,
      ap length h.contents,
      length-append (encode cmds) h.spare,
      length-append (encode cmds ++ c) (0 ∷ rest),
      length-append (encode cmds) c,
    );
    used = omega (
      arith,
      ap length (encode-append cmds (c ∷ [])),
      length-append (encode cmds) (c ++ 0 ∷ []),
      length-append c (0 ∷ []),
      h.at_end,
      h.used,
    );
    at_end = omega arith;
    counted = omega (arith, length-append cmds (c ∷ []), h.counted);
  }

  append_bytes-Holds :
      off.command_count + 1 < 2 ^ 32
      → (rec' : Record) × (append_bytes rec off (length c) c ≡ ok (rec', advance off (length c)))
        × Holds rec' (advance off (length c)) (cmds ++ c ∷ [])
        × (rec'.alloc_bytes ≡ rec.alloc_bytes)
  unfolding appended
  append_bytes-Holds few =
      let (b, rest, e, l) = drop-cons (length c) h.spare spare_room in
      (appended rest, append_bytes_lem b rest e, appended-Holds b rest e l few, refl)

-- Growing keeps what the record holds.
grown-Holds :
    (m : Allocator) (rec : Record) (off : Offset) (cmds : List (List ℕ)) (block : List ℕ)
    → IsAllocator m
    → Holds rec off cmds
    → rec.alloc_bytes * 2 < 2 ^ 31
    → m.realloc rec.buf (rec.alloc_bytes * 2) ≡ some block
    → Holds (record rec { buf = block; alloc_bytes = rec.alloc_bytes * 2 }) off cmds
grown-Holds m rec off cmds block a h small e =
    let (tail, kept) =
      a.realloc_keeps rec.buf (rec.alloc_bytes * 2) block e (omega (arith, h.sized)) in
    record {
      spare = h.spare ++ tail;
      contents = kept ∙ ap (λ t. t ++ tail) h.contents ∙ append_assoc (encode cmds) h.spare tail;
      sized = a.realloc_length rec.buf (rec.alloc_bytes * 2) block e;
      used = h.used;
      at_end = h.at_end;
      counted = h.counted;
    }

module _ (m : Allocator) (rec : Record) (off : Offset) (len : ℕ) where
  -- The code asks for a larger block exactly when the command does not fit the block that it has.
  record_realloc_room :
      off.byte_count + len + 1 ≤ rec.alloc_bytes
      → rec.alloc_bytes * 2 < 2 ^ 31
      → record_realloc m rec (u64 (u64 (off.byte_count + len + 1) + 2 ^ 64 - rec.alloc_bytes))
        ≡ some rec
  unfolding record_realloc
  record_realloc_room room small = ground arith

  record_realloc_grow :
      (block : List ℕ)
      → rec.alloc_bytes < off.byte_count + len + 1
      → off.byte_count + len + 1 < 2 ^ 31
      → rec.alloc_bytes * 2 < 2 ^ 31
      → m.realloc rec.buf (rec.alloc_bytes * 2) ≡ some block
      → record_realloc m rec (u64 (u64 (off.byte_count + len + 1) + 2 ^ 64 - rec.alloc_bytes))
        ≡ some (record rec { buf = block; alloc_bytes = rec.alloc_bytes * 2 })
  unfolding record_realloc
  record_realloc_grow block more fits small e = ground arith

-- The copy, or the terminator behind it, is outside of the block.
append_bytes_overrun :
    (rec : Record) (off : Offset) (c : List ℕ)
    → length rec.buf < off.byte_count + length c + 1
    → off.byte_count + length c + 1 < 2 ^ 31
    → append_bytes rec off (length c) c ≡ fault
unfolding append_bytes
append_bytes_overrun rec off c over small =
    elim (Bool-cases (ltb (length rec.buf) (off.byte_count + length c))) [
      | inl out ↦ rw (memcpy_outside rec.buf off.byte_count (length c) c (ltb→lt _ _ out))
      | inr fits ↦
          let (copied, e, l) =
            memcpy_inside rec.buf off.byte_count (length c) c (omega arith) (ground arith) in
          rw (e, store_outside copied (u64 (off.byte_count + length c)) 0 (omega (arith, l)))
    ]

-- No larger block is wanted, or realloc gives one.
abbrev pub CanGrow : Allocator → Record → Offset → ℕ → Type 0
CanGrow m rec off len =
    (off.byte_count + len + 1 ≤ rec.alloc_bytes)
    ⊎ ((block : List ℕ) × (m.realloc rec.buf (rec.alloc_bytes * 2) ≡ some block))

record_append_room :
    (m : Allocator) (rec : Record) (off : Offset) (cmds : List (List ℕ)) (c : List ℕ)
    → Holds rec off cmds
    → Fits rec off (length c)
    → off.byte_count + length c + 1 ≤ rec.alloc_bytes
    → (rec' : Record) × (record_append m (length c) c rec off ≡ ok (rec', advance off (length c)))
      × Holds rec' (advance off (length c)) (cmds ++ c ∷ [])
      × (rec'.alloc_bytes ≡ rec.alloc_bytes)
unfolding record_append
record_append_room m rec off cmds c h f room =
    rw (record_realloc_room m rec off (length c) room f.in_range, record_append)
      (append_bytes-Holds rec off cmds c h room (omega (arith, f.in_range)) f.count_in_range)

record_append_grow :
    (m : Allocator) (rec : Record) (off : Offset) (cmds : List (List ℕ)) (c block : List ℕ)
    → IsAllocator m
    → Holds rec off cmds
    → Fits rec off (length c)
    → rec.alloc_bytes < off.byte_count + length c + 1
    → m.realloc rec.buf (rec.alloc_bytes * 2) ≡ some block
    → (rec' : Record) × (record_append m (length c) c rec off ≡ ok (rec', advance off (length c)))
      × Holds rec' (advance off (length c)) (cmds ++ c ∷ [])
      × (rec'.alloc_bytes ≡ rec.alloc_bytes * 2)
unfolding record_append
record_append_grow m rec off cmds c block a h f more e =
    rw
      (
        record_realloc_grow m rec off (length c) block more
            (omega (arith, f.one_doubling, f.in_range)) f.in_range e,
        record_append,
      )
      (append_bytes-Holds _ off cmds c (grown-Holds m rec off cmds block a h f.in_range e)
        f.one_doubling (omega (arith, f.in_range)) f.count_in_range)

-- An append to a record that holds `cmds` returns, leaves it holding `cmds` and the new command, and
-- moves the offset past that: if one doubling of the block makes room for it, no count wraps, and
-- realloc gives the larger block where one is wanted. The block is doubled only where it is too small.
pub record_append-Holds :
    (m : Allocator) (rec : Record) (off : Offset) (cmds : List (List ℕ)) (c : List ℕ)
    → IsAllocator m
    → Holds rec off cmds
    → Fits rec off (length c)
    → CanGrow m rec off (length c)
    → (rec' : Record) × (record_append m (length c) c rec off ≡ ok (rec', advance off (length c)))
      × Holds rec' (advance off (length c)) (cmds ++ c ∷ [])
      × (rec'.alloc_bytes ≡ (
          if ltb rec.alloc_bytes (off.byte_count + length c + 1)
          then rec.alloc_bytes * 2
          else rec.alloc_bytes))
record_append-Holds m rec off cmds c a h f g =
    elim (Bool-cases (ltb rec.alloc_bytes (off.byte_count + length c + 1))) [
      | inl more ↦ elim g [
        | inl room ↦ absurd (omega (arith, ltb→lt _ _ more))
        | inr (block, e) ↦
            rw more (record_append_grow m rec off cmds c block a h f (ltb→lt _ _ more) e)
      ]
      | inr room ↦ rw room (record_append_room m rec off cmds c h f (ground arith))
    ]

-- A command that needs more than twice the block, and less than 2 ^ 31 bytes, is written past the
-- end of the block that realloc gives: the block is doubled once, whatever the command needs.
pub record_append_overrun :
    (m : Allocator) (rec : Record) (off : Offset) (c block : List ℕ)
    → IsAllocator m
    → off.byte_count < rec.alloc_bytes
    → rec.alloc_bytes * 2 < off.byte_count + length c + 1
    → off.byte_count + length c + 1 < 2 ^ 31
    → m.realloc rec.buf (rec.alloc_bytes * 2) ≡ some block
    → record_append m (length c) c rec off ≡ fault
unfolding record_append
record_append_overrun m rec off c block a inside over small e =
    rw
      (
        record_realloc_grow m rec off (length c) block (omega arith) small (omega arith) e,
        record_append,
      )
      (append_bytes_overrun _ off c
        (omega (arith, a.realloc_length rec.buf (rec.alloc_bytes * 2) block e)) small)
