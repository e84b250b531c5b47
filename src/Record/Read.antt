-- ===== src/Record/Read.antt =====
-- record.c's readers, on a record as the log of its commands.
use craftsman_console.Base.{
  ℕ, zero, suc, ◌+◌, ◌%◌, ◌^◌, ◌≤◌, ◌<◌, ◌≡◌, refl, ap, sym, ◌∙◌, true, false, List, [], ◌∷◌, ◌++◌,
  append_assoc, append-nil, none, some, arith, leb, le→ltb, lt→ltb, subst, memcpy_whole, length,
  length-append, drop, drop-append, cstring-text, IsText, memcpy, replicate, length-replicate, ok,
}
use craftsman_console.Record.{
  Record, Offset, string_at, advance, record_read, record_playback, record_can_playback,
  record_peek, record_read_bytes, playback_from, record_playback_all,
}
use craftsman_console.Record.Log.{encode, encode-append, Holds}

-- All commands are strings.
abbrev pub AllText : List (List ℕ) → Type 0
AllText [] = Unit
AllText (c ∷ cs) = IsText c × AllText cs

-- `off` is where a reader stands that has read the commands `past`.
pub record Stands (off : Offset) (past : List (List ℕ)) : Type 0 where
  pub bytes_read : off.byte_count ≡ length (encode past)
  pub commands_read : off.command_count ≡ length past

pub length-encode_snoc :
    (past : List (List ℕ)) (c : List ℕ)
    → length (encode (past ++ c ∷ [])) ≡ length (encode past) + length c + 1
length-encode_snoc past c = omega (
  arith,
  ap length (encode-append past (c ∷ [])),
  length-append (encode past) (c ++ 0 ∷ []),
  length-append c (0 ∷ []),
)

pub length-encode_split :
    (past : List (List ℕ)) (c : List ℕ) (later : List (List ℕ))
    → length (encode (past ++ c ∷ later))
      ≡ length (encode past) + length c + 1 + length (encode later)
length-encode_split past c later = omega (
  arith,
  ap length (encode-append past (c ∷ later)),
  length-append (encode past) (c ++ 0 ∷ encode later),
  length-append c (0 ∷ encode later),
)

module _ (rec : Record) (woff : Offset) (past : List (List ℕ)) (c : List ℕ) (later : List (List ℕ))
    (h : Holds rec woff (past ++ c ∷ later)) where
  -- the bytes behind the reader
  rest_of : drop (length (encode past)) rec.buf ≡ c ++ 0 ∷ (encode later ++ h.spare)
  rest_of =
      ap (drop (length (encode past))) (h.contents ∙ regroup)
      ∙ drop-append (length (encode past)) (encode past) (c ++ 0 ∷ (encode later ++ h.spare)) refl
    where
      regroup :
          encode (past ++ c ∷ later) ++ h.spare
          ≡ encode past ++ (c ++ 0 ∷ (encode later ++ h.spare))
      regroup = simp (encode-append, append_assoc)

  pub string_at-command : IsText c → string_at rec (length (encode past)) ≡ ok c
  string_at-command t = rw (rest_of, cstring-text c (encode later ++ h.spare) t)

  used_split : rec.used_bytes ≡ length (encode past) + length c + 1 + length (encode later)
  used_split = h.used ∙ length-encode_split past c later

  advance-Stands :
      (off : Offset)
      → Stands off past
      → rec.used_bytes < 2 ^ 32
      → off.command_count + 1 < 2 ^ 32
      → Stands (advance off (length c)) (past ++ c ∷ [])
  advance-Stands off s small few = record {
    bytes_read = omega (arith, s.bytes_read, used_split, length-encode_snoc past c);
    commands_read = omega (arith, s.commands_read, length-append past (c ∷ []));
  }

-- A reader that has read the commands `past` of a record is given the next one, which is a string,
-- by `record_read` and by `record_playback` alike, and then stands behind it; `record_can_playback`
-- says so, and `record_peek` points to it. The bytes used and the commands read are below 2 ^ 32.
pub record_read-next :
    (rec : Record) (woff off : Offset) (past : List (List ℕ)) (c : List ℕ) (later : List (List ℕ))
    → Holds rec woff (past ++ c ∷ later)
    → Stands off past
    → IsText c
    → rec.used_bytes < 2 ^ 32
    → off.command_count + 1 < 2 ^ 32
    → (record_read rec off ≡ ok (some c, advance off (length c)))
      × (record_playback rec off ≡ ok (true, c ∷ [], advance off (length c)))
      × (record_can_playback rec off ≡ true)
      × (record_peek rec off ≡ some (length (encode past)))
      × Stands (advance off (length c)) (past ++ c ∷ [])
unfolding record_read record_playback record_can_playback record_peek
record_read-next rec woff off past c later h s t small few =
    let next : string_at rec off.byte_count ≡ ok c =
      rw s.bytes_read (string_at-command rec woff past c later h t) in
    let more : leb rec.used_bytes off.byte_count ≡ false =
      ground (arith, s.bytes_read, used_split rec woff past c later h) in
    (
      rw (more, next),
      rw (more, next),
      rw more,
      rw more (ap some s.bytes_read),
      advance-Stands rec woff past c later h off s small few,
    )

-- A reader that has read every command is given none by `record_read`, `record_playback` and
-- `record_peek`, `record_can_playback` says so, and the offset stays as it is.
pub record_read-end :
    (rec : Record) (woff off : Offset) (cmds : List (List ℕ))
    → Holds rec woff cmds
    → Stands off cmds
    → (record_read rec off ≡ ok (none, off))
      × (record_playback rec off ≡ ok (false, [], off))
      × (record_can_playback rec off ≡ false)
      × (record_peek rec off ≡ none)
unfolding record_read record_playback record_can_playback record_peek
record_read-end rec woff off cmds h s =
    let all : leb rec.used_bytes off.byte_count ≡ true = ground (arith, s.bytes_read, h.used) in
    (rw all, rw all, rw all, rw all)

-- A reader that has read the commands `past` of a record and knows the length of the next one is
-- given its bytes by `record_read_bytes`, whatever they are, and then stands behind it. The bytes
-- used and the commands read are below 2 ^ 32.
pub record_read_bytes-next :
    (rec : Record) (woff off : Offset) (past : List (List ℕ)) (c : List ℕ) (later : List (List ℕ))
    → Holds rec woff (past ++ c ∷ later)
    → Stands off past
    → rec.used_bytes < 2 ^ 32
    → off.command_count + 1 < 2 ^ 32
    → (record_read_bytes rec off (length c) ≡ ok (some c, advance off (length c)))
      × Stands (advance off (length c)) (past ++ c ∷ [])
unfolding record_read_bytes
record_read_bytes-next rec woff off past c later h s small few =
    (rw (more, copied), advance-Stands rec woff past c later h off s small few)
  where
    more : leb rec.used_bytes ((off.byte_count + length c) % 2 ^ 64) ≡ false
    more = ground (arith, s.bytes_read, used_split rec woff past c later h)

    rest : drop off.byte_count rec.buf ≡ c ++ 0 ∷ (encode later ++ h.spare)
    rest = rw s.bytes_read (rest_of rec woff past c later h)

    copied : memcpy (replicate (length c) 0) 0 (length c) (drop off.byte_count rec.buf) ≡ ok c
    copied = rw rest (memcpy_whole (replicate (length c) 0) c _ (length-replicate (length c) 0))

module _ (rec : Record) (woff : Offset) (small : rec.used_bytes < 2 ^ 31) where
  playback_from-commands :
      (fuel : ℕ) (past later : List (List ℕ)) (i : ℕ)
      → Holds rec woff (past ++ later)
      → AllText later
      → i ≡ length (encode past)
      → length (encode later) ≤ fuel
      → playback_from fuel rec i ≡ ok later
  unfolding playback_from
  playback_from-commands zero past [] i h t e f = rw (
      le→ltb i rec.used_bytes
        (omega (arith, h.used, ap (λ l. length (encode l)) (append-nil past))))
  playback_from-commands (suc fuel) past [] i h t e f = rw (
    le→ltb i rec.used_bytes (omega (arith, h.used, ap (λ l. length (encode l)) (append-nil past))),
    playback_from,
  )
  playback_from-commands zero past (c ∷ later) i h t e f =
      absurd (omega (arith, length-append c (0 ∷ encode later)))
  playback_from-commands (suc fuel) past (c ∷ later) i h t e f = rw (
    lt→ltb i rec.used_bytes (omega (arith, used_split rec woff past c later h)),
    lt→ltb i (2 ^ 31) (omega (arith, small, used_split rec woff past c later h)),
    e,
    string_at-command rec woff past c later h t.0,
    within,
    playback_from-commands fuel (past ++ c ∷ []) later (length (encode past) + length c + 1)
        (subst (Holds rec woff) (sym (append_assoc past (c ∷ []) later)) h) t.1
        (sym (length-encode_snoc past c)) (omega (arith, length-append c (0 ∷ encode later))),
    playback_from,
  )
    where
      within : (length (encode past) + length c + 1) % 2 ^ 32 ≡ length (encode past) + length c + 1
      within = omega (arith, small, used_split rec woff past c later h)

-- `record_playback_all` hands each command of a record to the handler, in order and once, and
-- returns, where the commands are strings and the bytes used are fewer than 2 ^ 31.
pub record_playback_all-commands :
    (rec : Record) (woff : Offset) (cmds : List (List ℕ))
    → Holds rec woff cmds
    → AllText cmds
    → rec.used_bytes < 2 ^ 31
    → record_playback_all rec ≡ ok cmds
unfolding record_playback_all
record_playback_all-commands rec woff cmds h t small =
    playback_from-commands rec woff small rec.used_bytes [] cmds 0 h t refl (omega (arith, h.used))
