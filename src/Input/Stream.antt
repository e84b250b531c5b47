-- ===== src/Input/Stream.antt =====
-- Polling standard input for a stream of bytes, however it is cut up.
use craftsman_console.Base.{
  ℕ, ◌+◌, ◌*◌, ◌≤◌, ◌<◌, ◌≡◌, refl, ap, ap₂, sym, subst, ◌∙◌, true, false, List, [], ◌∷◌, ◌++◌,
  append-nil, some, arith, length, length-append, drop, drop-cons, flatten, IsText, Outcome, ok,
  ◌>>=◌, ◌==◌,
}
use craftsman_console.Base.Int.{pos}
use craftsman_console.Network.{PollFlags, Polled, is_flagged}
use craftsman_console.Input.{buf_size, buf_len, Input, drop_long, input_poll}
use craftsman_console.Input.Lines.{
  lines, unended, NoNewline, HoldsText, AllZero, AllZero-drop, length-unended_le, lines-append,
  lines-pending, unended-NoNewline,
}
use craftsman_console.Input.Drain.{drain_lem, retext}
use craftsman_console.Input.Poll.{Waiting, filled, filled-HoldsText, polled_lem, -ℤ_pos}

-- The buffer has `pending`, which is no line yet, and terminators only behind it.
pub record IsClear (inp : Input) (pending : List ℕ) : Type 0 where
  pub holds : HoldsText inp pending
  pub zeros : AllZero holds.behind
  pub used : inp.used_buf ≡ pos (length pending)
  pub part : NoNewline pending

abbrev waiting : {inp : Input} {pending : List ℕ} → IsClear inp pending → Waiting inp pending
waiting {inp} {pending} c = record {
  rest = 0 ∷ c.holds.behind;
  contents = c.holds.contents;
  sized = c.holds.sized;
  used = c.used;
  text = c.holds.text;
}

-- What is still clear behind the bytes that are read.
zeros_behind :
    (n : ℕ) (behind : List ℕ)
    → AllZero behind
    → n ≤ length behind
    → (more : List ℕ) × (drop n (0 ∷ behind) ≡ 0 ∷ more)
      × AllZero more
      × (length behind ≡ n + length more)
zeros_behind n behind z k =
    let (c, more, e, l) = drop-cons n (0 ∷ behind) (omega arith) in
    let (zero_first, zeros) = subst AllZero e (AllZero-drop n (0 ∷ behind) (refl, z)) in
    (more, e ∙ ap (λ (b : ℕ). b ∷ more) zero_first, zeros, omega arith)

not_full : (inp : Input) (n : ℕ) → inp.used_buf ≡ pos n → n < buf_len → drop_long inp ≡ inp
unfolding drop_long
not_full inp n e small = let k : (n == buf_len) ≡ false = ground arith in rw (e, k)

module _ (flags : PollFlags) (revents : ℕ)
    (readable : is_flagged revents flags.poll_in ≡ true) where
  poll_IsClear :
      (inp : Input) (pending bytes : List ℕ)
      → IsClear inp pending
      → IsText bytes
      → 2 * (length pending + length bytes) ≤ buf_size
      → (inp' : Input) × (input_poll flags (Polled.events revents) (some bytes) inp
          ≡ ok (true, lines pending bytes, inp'))
        × IsClear inp' (unended pending bytes)
  unfolding filled filled-HoldsText
  poll_IsClear inp pending bytes c t small =
      let sizes : length pending + 1 + length c.holds.behind ≡ buf_size = omega (
        arith,
        c.holds.sized,
        ap length c.holds.contents,
        length-append pending (0 ∷ c.holds.behind),
      ) in
      let (more, next, zeros, l) =
        zeros_behind (length bytes) c.holds.behind c.zeros (omega (arith, small, sizes)) in
      let w = waiting c in
      let h = filled-HoldsText inp pending bytes [] more w t tt next in
      let all : length (pending ++ (bytes ++ [])) ≡ length pending + length bytes =
        length-append pending (bytes ++ [])
        ∙ ap (λ b. length pending + length b) (append-nil bytes) in
      let d =
        drain_lem buf_size (filled inp pending bytes [] more w t tt next) (pending ++ (bytes ++ []))
          h (omega (arith, all, small)) in
      let (ls, u) = lines-pending [] pending (bytes ++ []) c.part in
      let left : unended [] (pending ++ (bytes ++ [])) ≡ unended pending bytes =
        u ∙ ap (unended pending) (append-nil bytes) in
      let shorter = length-unended_le pending bytes in
      let used : d.after.used_buf ≡ pos (length (unended pending bytes)) =
        d.used
        ∙ -ℤ_pos (length pending + length bytes) _ (omega (arith, all))
        ∙ ap pos (omega (arith, all, ap length left, shorter)) in
      (
        d.after,
        polled_lem inp pending bytes [] more w t tt next flags revents readable d
            ∙ ap₂ (λ ls a. ok (true, ls, a)) (ls ∙ ap (lines pending) (append-nil bytes))
                (not_full d.after _ used (omega (arith, small, shorter))),
        record {
          holds = retext d.holds left;
          zeros = d.clear zeros (omega (arith, all, l, sizes, small));
          used = used;
          part = unended-NoNewline pending bytes c.part;
        },
      )

  -- Polling once for each piece: the lines that are handed over in all, and the state at the end.
  abbrev pub input_polls : List (List ℕ) → Input → Outcome (List (List ℕ) × Input)
  input_polls [] inp = ok ([], inp)
  input_polls (bytes ∷ pieces) inp =
      input_poll flags (Polled.events revents) (some bytes) inp >>= λ (going, ls, inp').
      input_polls pieces inp' >>= λ (later, last). ok (ls ++ later, last)

  -- No piece is longer than half of the buffer, with what waits before it.
  abbrev pub Fit : List ℕ → List (List ℕ) → Type 0
  Fit pending [] = Unit
  Fit pending (bytes ∷ pieces) =
      IsText bytes
      × (2 * (length pending + length bytes) ≤ buf_size)
      × Fit (unended pending bytes) pieces

  -- Where the buffer has terminators only behind what waits in it, the pieces that are read are strings, and each
  -- of them is, with the part of a line that waits before it, at most half as long as the buffer, the polls
  -- together hand over the lines of the stream, however it is cut into such pieces, and leave the
  -- buffer as clear, with the part of the stream that is no line yet.
  pub input_polls-stream :
      (pieces : List (List ℕ)) (inp : Input) (pending : List ℕ)
      → IsClear inp pending
      → Fit pending pieces
      → (inp' : Input) × (input_polls pieces inp ≡ ok (lines pending (flatten pieces), inp'))
        × IsClear inp' (unended pending (flatten pieces))
  input_polls-stream [] inp pending c f = (inp, refl, c)
  input_polls-stream (bytes ∷ pieces) inp pending c f =
      let (next, now, c') = poll_IsClear inp pending bytes c f.0 f.1 in
      let (last, later, c'') = input_polls-stream pieces next (unended pending bytes) c' f.2 in
      let (ls, u) = lines-append pending bytes (flatten pieces) in
      (last, rw (now, ◌>>=◌) (rw (later, ◌>>=◌, ls) refl), subst (IsClear last) (sym u) c'')
