-- ===== src/Input/Poll.antt =====
-- Calls of input.c's input_poll, as functions of the stream of bytes that is typed.
use craftsman_console.Base.{
  ℕ, ◌+◌, ◌-◌, ◌≤◌, ◌≡◌, refl, ap, ◌∙◌, true, List, [], ◌∷◌, ◌++◌, append_assoc, some, arith,
  length, length-append, length-drop, drop, IsText, IsText-append, memcpy, memcpy-append, ok, ◌>>=◌,
}
use craftsman_console.Base.Int.{pos, ◌+ℤ◌, ◌-ℤ◌}
use craftsman_console.Network.{PollFlags, Polled, is_flagged}
use craftsman_console.Input.{buf_size, Input, read_from, read_input, drop_long, input_poll}
use craftsman_console.Input.Lines.{lines, unended, HoldsText}
use craftsman_console.Input.Drain.{Drained, drain_lem}

-- The bytes that were read and not handed over, at the front of the buffer.
pub record Waiting (inp : Input) (pending : List ℕ) : Type 0 where
  pub rest : List ℕ
  pub contents : inp.buf ≡ pending ++ rest
  pub sized : length inp.buf ≡ buf_size
  pub used : inp.used_buf ≡ pos (length pending)
  pub text : IsText pending

+ℤ_pos : (a b : ℕ) → pos a +ℤ pos b ≡ pos (a + b)
+ℤ_pos a b = ground arith

pub -ℤ_pos : (a b : ℕ) → b ≤ a → pos a -ℤ pos b ≡ pos (a - b)
-ℤ_pos a b h = ground arith

-- Once `bytes` are read: what stands behind them in the buffer up to the next terminator is `stale`.
module _ (inp : Input) (pending bytes stale more : List ℕ) (w : Waiting inp pending)
    (typed : IsText bytes) (old : IsText stale)
    (next : drop (length bytes) w.rest ≡ stale ++ 0 ∷ more) where
  unfoldable pub filled : Input
  filled = record inp {
    buf = pending ++ (bytes ++ (stale ++ 0 ∷ more));
    used_buf = pos (length pending + length bytes);
  }

  pub fits : length bytes + length stale + 1 + length more ≡ length w.rest
  fits =
      omega
        (arith, ap length next, length-append stale (0 ∷ more), length-drop (length bytes) w.rest)

  read_input_lem : read_input (some bytes) inp ≡ ok filled
  unfolding read_input read_from filled
  read_input_lem =
      ap (λ u. read_from u (some bytes) inp) w.used
      ∙ ap
          (λ o. o >>= λ b.
            ok (record inp { buf = b; used_buf = pos (length pending) +ℤ pos (length bytes) }))
          (ap (λ b. memcpy b (length pending) (length bytes) bytes) w.contents
            ∙ memcpy-append pending w.rest bytes (length pending) (length bytes) refl refl
                (omega (arith, fits))
            ∙ ap (λ t. ok (pending ++ (bytes ++ t))) next)
      ∙ ap (λ u. ok (record inp { buf = pending ++ (bytes ++ (stale ++ 0 ∷ more)); used_buf = u }))
          (+ℤ_pos (length pending) (length bytes))

  unfoldable pub filled-HoldsText : HoldsText filled (pending ++ (bytes ++ stale))
  unfolding filled
  filled-HoldsText = record {
    behind = more;
    contents = simp append_assoc;
    sized = omega (
      arith,
      fits,
      w.sized,
      ap length w.contents,
      length-append pending w.rest,
      length-append pending (bytes ++ (stale ++ 0 ∷ more)),
      length-append bytes (stale ++ 0 ∷ more),
      length-append stale (0 ∷ more),
    );
    text = IsText-append pending (bytes ++ stale) w.text (IsText-append bytes stale typed old);
  }

  pub polled_lem :
      (flags : PollFlags) (revents : ℕ)
      → is_flagged revents flags.poll_in ≡ true
      → (d : Drained buf_size filled (pending ++ (bytes ++ stale)) filled-HoldsText)
      → input_poll flags (Polled.events revents) (some bytes) inp
        ≡ ok (true, lines [] (pending ++ (bytes ++ stale)), drop_long d.after)
  unfolding input_poll
  polled_lem flags revents readable d = rw (readable, read_input_lem, ◌>>=◌) (rw (d.returns, ◌>>=◌))

-- What a call of `input_poll` hands over when poll says that there is something to read and `bytes` are
-- read: the lines of what was waiting, the bytes, and whatever the buffer has behind them up to
-- the next terminator. Bytes that stand there from before are taken for input.
pub input_poll-lines :
    (flags : PollFlags) (revents : ℕ) (inp : Input) (pending bytes stale more : List ℕ)
    → (w : Waiting inp pending) → is_flagged revents flags.poll_in ≡ true
    → IsText bytes
    → IsText stale
    → drop (length bytes) w.rest ≡ stale ++ 0 ∷ more
    → (inp' : Input) × (input_poll flags (Polled.events revents) (some bytes) inp
        ≡ ok (true, lines [] (pending ++ (bytes ++ stale)), drop_long inp'))
      × HoldsText inp' (unended [] (pending ++ (bytes ++ stale)))
      × (inp'.used_buf
          ≡ pos (length pending + length bytes)
            -ℤ pos (
                length (pending ++ (bytes ++ stale))
                - length (unended [] (pending ++ (bytes ++ stale)))))
unfolding filled
input_poll-lines flags revents inp pending bytes stale more w readable typed old next =
    let h = filled-HoldsText inp pending bytes stale more w typed old next in
    let d =
      drain_lem buf_size (filled inp pending bytes stale more w typed old next)
        (pending ++ (bytes ++ stale)) h
        (omega (
          arith,
          h.sized,
          ap length h.contents,
          length-append (pending ++ (bytes ++ stale)) (0 ∷ h.behind),
        )) in
    (
      d.after,
      polled_lem inp pending bytes stale more w typed old next flags revents readable d,
      d.holds,
      d.used,
    )
