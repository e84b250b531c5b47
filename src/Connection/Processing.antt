-- ===== src/Connection/Processing.antt =====
-- connection_processing of connection.c as a function of the frames in its buffer.
use craftsman_console.Base.{
  ℕ, zero, suc, ◌+◌, ◌^◌, ◌≤◌, ◌<◌, ◌≡◌, refl, ap, subst, ◌∙◌, inl, inr, Bool, true, false,
  Bool-cases, List, [], ◌∷◌, ◌++◌, append_assoc, arith, some, none, ◌==◌, ==_iff, length,
  length-append, set, get_elem?, get_elem?-set, IsText, lt→ltb, le→ltb, ok,
}
use craftsman_console.Base.Int.{pos}
use craftsman_console.Record.{Allocator, Record, RecordRw, record_alloc}
use craftsman_console.Record.Log.{encode}
use craftsman_console.Record.Read.{length-encode_snoc}
use craftsman_console.Record.Growth.{IsPlentiful, record_append-short}
use craftsman_console.Connection.{
  Connection, max_player, load_int, waits, changes, goes_on, round_of_length, processing_round,
  processing_loop, connection_processing,
}
use craftsman_console.Connection.Frames.{
  header, frame, Buffers, load_int-le32, pos_sum, fits_buffer, behind, behind-Buffers,
  round-present, round-absent,
}
use craftsman_console.Connection.Delivery.{
  frames, Logs, deliver, deliver_all, IsRecorded, Recorded, Deliverable, IsPartial, HaveRoom,
}

module _ (m : Allocator) (signed : Bool) (present : ℕ → Bool) where
  Recorded-deliver :
      (recording : List RecordRw) (logs : Logs) (k : ℕ) (t : List ℕ) (old new : RecordRw)
      → Recorded present recording logs
      → get_elem? recording k ≡ some old
      → IsRecorded new (logs k ++ t ∷ [])
      → Recorded present (set recording k new) (deliver k t logs)
  Recorded-deliver recording logs k t old new r e fresh j here = elim (Bool-cases (k == j)) [
    | inl same ↦
        let e' : k ≡ j = (==_iff k j).0 same in
        (
          new,
          get_elem?-set recording k j new old e ∙ rw same,
          rw same (subst (λ i. IsRecorded new (logs i ++ t ∷ [])) e' fresh),
        )
    | inr other ↦
        let (entry, at_j, kept) = r j here in
        (entry, get_elem?-set recording k j new old e ∙ rw other at_j, rw other kept)
  ]

  -- What is left at the end stays in the buffer.
  waits_of_length :
      (c : Connection) (recording : List RecordRw) (n : ℕ)
      → c.used_receive_buffer < 9 + n
      → n < 2 ^ 30
      → round_of_length m signed (pos (n + 1)) (pos (9 + n)) c recording ≡ ok waits
  unfolding round_of_length
  waits_of_length c recording n short small = ground arith

  waits_lem :
      (c : Connection) (recording : List RecordRw) (k : ℕ) (t tail : List ℕ)
      → Buffers c (header k t ++ tail)
      → length tail ≤ length t
      → length t < 2 ^ 30
      → processing_round m signed c recording ≡ ok waits
  unfolding processing_round
  waits_lem c recording k t tail b short small =
      let loaded : load_int c.receive_buffer ≡ ok (pos (length t + 1)) =
        rw b.contents (load_int-le32 (length t + 1) _ (omega arith)) in
      rw loaded (
        rw (pos_sum (length t))
          (waits_of_length c recording (length t) (omega (arith, b.used)) small))

  loop-partial :
      (fuel : ℕ) (c : Connection) (recording : List RecordRw) (rest : List ℕ)
      → Buffers c rest
      → IsPartial rest
      → length rest ≤ fuel
      → processing_loop fuel m signed c recording ≡ ok (true, c, recording)
  unfolding processing_loop
  loop-partial zero c recording rest b p enough =
      rw (lt→ltb c.used_receive_buffer 8 (omega (arith, b.used)))
  loop-partial (suc fuel) c recording rest b (inl short) enough =
      rw (lt→ltb c.used_receive_buffer 8 (omega (arith, b.used)), processing_loop)
  loop-partial (suc fuel) c recording rest b (inr (k, t, tail, e, short, small)) enough = rw (
    le→ltb c.used_receive_buffer 8 (omega (arith, b.used, ap length e)),
    waits_lem c recording k t tail (subst (Buffers c) e b) short small,
    processing_loop,
  )

  -- What a round does with the frame at the front of the buffer, for a player who is present.
  record Taken (c : Connection) (recording : List RecordRw) (logs : Logs) (k : ℕ) (t rest : List ℕ)
      : Type 0 where
    next : Connection
    later : List RecordRw
    round : processing_round m signed c recording ≡ ok (goes_on next later)
    buffers : Buffers next rest
    recorded : Recorded present later (deliver k t logs)

  take_frame :
      (c : Connection) (recording : List RecordRw) (logs : Logs) (k : ℕ) (t rest : List ℕ)
      → IsPlentiful m
      → (b : Buffers c (frame k t ++ rest)) → k < max_player
      → present k ≡ true
      → IsText t
      → Recorded present recording logs
      → length (encode (logs k)) < 2 ^ 28
      → Taken c recording logs k t rest
  take_frame c recording logs k t rest plenty b player here text r room =
      let (entry, at_k, kept) = r k here in
      let (held', appended, holds', moderate') =
        record_append-short m kept.held entry.write_offset (logs k) t plenty kept.holds
          kept.moderate
          (omega (arith, fits_buffer m signed c recording k t rest b player text entry at_k))
          (omega (arith, kept.holds.used)) in
      record {
        next = behind m signed c recording k t rest b player text entry at_k;
        later = set recording k (record entry { rec = some held'; write_offset = _ });
        round =
            round-present m signed c recording k t rest b player text entry at_k kept.held held' _
              kept.there appended;
        buffers = behind-Buffers m signed c recording k t rest b player text entry at_k;
        recorded =
            Recorded-deliver recording logs k t entry _ r at_k
              (record { held = held'; there = refl; holds = holds'; moderate = moderate' });
      }

  HaveRoom-deliver :
      (logs : Logs) (k : ℕ) (t rest : List ℕ)
      → HaveRoom logs (length (frame k t ++ rest))
      → HaveRoom (deliver k t logs) (length rest)
  HaveRoom-deliver logs k t rest room j = ground (
    arith,
    room j,
    length-encode_snoc (logs j) t,
    length-append (t ++ 0 ∷ []) rest,
    length-append t (0 ∷ []),
  )

  loop_step :
      (fuel : ℕ) (c : Connection) (recording : List RecordRw) (c' : Connection)
      (recording' : List RecordRw)
      → processing_round m signed c recording ≡ ok (goes_on c' recording')
      → 8 ≤ c.used_receive_buffer
      → processing_loop (suc fuel) m signed c recording
        ≡ processing_loop fuel m signed c' recording'
  unfolding processing_loop
  loop_step fuel c recording c' recording' e enough =
      rw (le→ltb c.used_receive_buffer 8 enough, e, processing_loop)

  loop-frames :
      (ms : List (ℕ × List ℕ)) (fuel : ℕ) (c : Connection) (recording : List RecordRw) (logs : Logs)
      (rest : List ℕ)
      → IsPlentiful m
      → Buffers c (frames ms ++ rest)
      → IsPartial rest
      → Deliverable present ms
      → Recorded present recording logs
      → HaveRoom logs (length (frames ms ++ rest))
      → length (frames ms ++ rest) ≤ fuel
      → (c' : Connection) × (recording' : List RecordRw) × (processing_loop fuel m signed c
            recording
          ≡ ok (true, c', recording'))
        × Buffers c' rest
        × Recorded present recording' (deliver_all ms logs)
  loop-frames [] fuel c recording logs rest plenty b p d r room enough =
      (c, recording, loop-partial fuel c recording rest b p enough, b, r)
  loop-frames ((k, t) ∷ ms) zero c recording logs rest plenty b p d r room enough =
      absurd (omega arith)
  loop-frames ((k, t) ∷ ms) (suc fuel) c recording logs rest plenty b p d r room enough =
      let more = frames ms ++ rest in
      let regroup : frames ((k, t) ∷ ms) ++ rest ≡ frame k t ++ more =
        append_assoc (frame k t) (frames ms) rest in
      let b' = subst (Buffers c) regroup b in
      let room' = subst (λ l. HaveRoom logs (length l)) regroup room in
      let sizes = ap length regroup in
      let whole = length-append (t ++ 0 ∷ []) more in
      let taken =
        take_frame c recording logs k t more plenty b' d.0 d.1 d.2 r (omega (arith, room' k)) in
      let (c', recording', e, buffers, recorded) =
        loop-frames ms fuel taken.next taken.later (deliver k t logs) rest plenty taken.buffers p
          d.3 taken.recorded (HaveRoom-deliver logs k t more room')
          (omega (arith, sizes, whole, length-append t (0 ∷ []))) in
      (
        c',
        recording',
        loop_step fuel c recording taken.next taken.later taken.round
              (omega (arith, b'.used, whole))
            ∙ e,
        buffers,
        recorded,
      )

loop_changes :
    (m : Allocator) (signed : Bool) (fuel : ℕ) (c : Connection)
    (recording recording' : List RecordRw)
    → 8 ≤ fuel
    → processing_round m signed c recording ≡ ok (changes recording')
    → c.used_receive_buffer ≡ fuel
    → processing_loop fuel m signed c recording ≡ ok (false, c, recording')
unfolding processing_loop
loop_changes m signed zero c recording recording' enough e used = absurd (omega arith)
loop_changes m signed (suc fuel) c recording recording' enough e used =
    rw (le→ltb c.used_receive_buffer 8 (omega arith), e, processing_loop)

-- `connection_processing` takes every whole frame from the front of the buffer, in order, and appends
-- its command to the record of the player that it names; it returns true, the part of a frame that
-- is left stays in the buffer, and the records of other players hold what they held. The frames
-- are strings for players who have a record, the allocator does not run out, and no record gets
-- to 2 ^ 28 bytes.
pub connection_processing-frames :
    (m : Allocator) (signed : Bool) (present : ℕ → Bool) (c : Connection)
    (recording : List RecordRw) (logs : Logs) (ms : List (ℕ × List ℕ)) (rest : List ℕ)
    → IsPlentiful m
    → Buffers c (frames ms ++ rest)
    → IsPartial rest
    → Deliverable present ms
    → Recorded present recording logs
    → HaveRoom logs (length (frames ms ++ rest))
    → (c' : Connection) × (recording' : List RecordRw) × (connection_processing m signed c recording
        ≡ ok (true, c', recording'))
      × Buffers c' rest
      × Recorded present recording' (deliver_all ms logs)
unfolding connection_processing
connection_processing-frames m signed present c recording logs ms rest plenty b p d r room =
    loop-frames m signed present ms c.used_receive_buffer c recording logs rest plenty b p d r room
      (omega (arith, b.used))

-- A whole frame with a string for a player who has no record yet makes an empty one, and stays in
-- the buffer: `connection_processing` returns false with nothing else changed.
pub connection_processing-absent :
    (m : Allocator) (signed : Bool) (c : Connection) (recording : List RecordRw) (k : ℕ)
    (t rest : List ℕ) (entry : RecordRw) (rec : Record)
    → Buffers c (frame k t ++ rest)
    → k < max_player
    → IsText t
    → get_elem? recording k ≡ some entry
    → entry.rec ≡ none
    → record_alloc m ≡ ok rec
    → connection_processing m signed c recording
      ≡ ok (false, c, set recording k (record entry { rec = some rec }))
unfolding connection_processing
connection_processing-absent m signed c recording k t rest entry rec b player text there absent
      made =
    loop_changes m signed c.used_receive_buffer c recording _
      (omega (arith, b.used, length-append (t ++ 0 ∷ []) rest))
      (round-absent m signed c recording k t rest b player text entry there rec absent made) refl
