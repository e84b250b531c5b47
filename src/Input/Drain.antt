-- ===== src/Input/Drain.antt =====
-- The loop of input.c's input_poll on a buffer that holds a string.
use craftsman_console.Base.{
  ℕ, zero, suc, ◌+◌, ◌-◌, ◌≤◌, ◌<◌, ◌≡◌, refl, ap, sym, subst, ◌∙◌, List, [], ◌∷◌, ◌++◌,
  append_assoc, some, arith, length, length-append, take, take-append, set, set-append, drop,
  drop-append_add, length-drop, IsText, memmove, memmove_tail, ok, ◌>>=◌,
}
use craftsman_console.Base.Int.{ℤ, pos, negsuc, ◌-ℤ◌}
use craftsman_console.Input.{buf_size, Input, find_newline, drain}
use craftsman_console.Input.Lines.{
  lines, unended, NoNewline, whole, first, first_line, lines-NoNewline, lines-line,
  find_newline-NoNewline, find_newline-line, IsText-split, length-unended_le, HoldsText, AllZero,
  AllZero-append, AllZero-drop,
}

-ℤ_twice : (a : ℤ) (m n : ℕ) → (a -ℤ pos m) -ℤ pos n ≡ a -ℤ pos (m + n)
-ℤ_twice (pos a) m n = ground arith
-ℤ_twice (negsuc a) m n = ground arith

-ℤ_zero : (a : ℤ) → a -ℤ pos 0 ≡ a
-ℤ_zero (pos a) = ground arith
-ℤ_zero (negsuc a) = ground arith

-- What the loop comes to on a buffer that holds `s`. Where there are terminators only behind `s`, and
-- `s` is at most half of the buffer, it stays so.
pub record Drained (fuel : ℕ) (inp : Input) (s : List ℕ) (h : HoldsText inp s) : Type 0 where
  pub after : Input
  pub returns : drain fuel inp ≡ ok (lines [] s, after)
  pub holds : HoldsText after (unended [] s)
  pub used : after.used_buf ≡ inp.used_buf -ℤ pos (length s - length (unended [] s))
  pub same : after.polled ≡ inp.polled
  pub clear : AllZero h.behind → length s ≤ suc (length h.behind) → AllZero holds.behind

module _ (inp : Input) (line rest : List ℕ) (h : HoldsText inp (line ++ 10 ∷ rest)) where
  texts : IsText line × IsText (10 ∷ rest)
  texts = IsText-split line (10 ∷ rest) h.text

  -- the bytes at the end that the move leaves as they are
  left_there : List ℕ
  left_there = drop (buf_size - suc (length line)) ((line ++ 0 ∷ []) ++ (rest ++ 0 ∷ h.behind))

  sizes : length line + 1 + length rest + 1 + length h.behind ≡ buf_size
  sizes = omega (
    arith,
    h.sized,
    ap length h.contents,
    length-append (line ++ 10 ∷ rest) (0 ∷ h.behind),
    length-append line (10 ∷ rest),
  )

  contents_split : inp.buf ≡ line ++ 10 ∷ (rest ++ 0 ∷ h.behind)
  contents_split = h.contents ∙ append_assoc line (10 ∷ rest) (0 ∷ h.behind)

  found : NoNewline line → find_newline inp.buf ≡ ok (some (length line))
  found n = rw contents_split (find_newline-line line (rest ++ 0 ∷ h.behind) n texts.0)

  abbrev next_input : Input
  next_input = record inp {
    buf = rest ++ 0 ∷ (h.behind ++ left_there);
    used_buf = inp.used_buf -ℤ pos (suc (length line));
  }

  moved :
      memmove (suc (length line)) (buf_size - suc (length line)) (set inp.buf (length line) 0)
      ≡ ok (rest ++ 0 ∷ (h.behind ++ left_there))
  unfolding left_there
  moved =
      ap (λ b. memmove (suc (length line)) (buf_size - suc (length line)) (set b (length line) 0))
        contents_split
      ∙ ap (memmove (suc (length line)) (buf_size - suc (length line))) (
          set-append (length line) line (rest ++ 0 ∷ h.behind) 10 0 refl
          ∙ sym (append_assoc line (0 ∷ []) (rest ++ 0 ∷ h.behind)))
      ∙ memmove_tail (line ++ 0 ∷ []) (rest ++ 0 ∷ h.behind) (suc (length line))
          (buf_size - suc (length line)) (omega (arith, length-append line (0 ∷ [])))
          (omega (arith, sizes, length-append rest (0 ∷ h.behind)))
      ∙ ap ok (append_assoc rest (0 ∷ h.behind) left_there)

  length-left_there : length left_there ≡ suc (length line)
  unfolding left_there
  length-left_there = omega (
    arith,
    sizes,
    length-drop (buf_size - suc (length line)) ((line ++ 0 ∷ []) ++ (rest ++ 0 ∷ h.behind)),
    length-append (line ++ 0 ∷ []) (rest ++ 0 ∷ h.behind),
    length-append line (0 ∷ []),
    length-append rest (0 ∷ h.behind),
  )

  next-HoldsText : HoldsText next_input rest
  next-HoldsText = record {
    behind = h.behind ++ left_there;
    contents = refl;
    sized = omega (
      arith,
      sizes,
      length-left_there,
      length-append rest (0 ∷ (h.behind ++ left_there)),
      length-append h.behind left_there,
    );
    text = texts.1.1;
  }

  left_there-AllZero :
      AllZero h.behind → length (line ++ 10 ∷ rest) ≤ suc (length h.behind) → AllZero left_there
  unfolding left_there
  left_there-AllZero z short =
      rw
        (
          k,
          sym (append_assoc (line ++ 0 ∷ []) rest (0 ∷ h.behind)),
          drop-append_add m front (0 ∷ h.behind),
        )
        (AllZero-drop m (0 ∷ h.behind) (refl, z))
    where
      front : List ℕ
      front = (line ++ 0 ∷ []) ++ rest

      m : ℕ
      m = buf_size - suc (length line) - length front

      k : buf_size - suc (length line) ≡ length front + m
      k = omega (
        arith,
        sizes,
        length-append line (10 ∷ rest),
        length-append (line ++ 0 ∷ []) rest,
        length-append line (0 ∷ []),
      )

-- The same buffer, for a text that is given otherwise.
abbrev pub retext : {inp : Input} {s t : List ℕ} → HoldsText inp s → s ≡ t → HoldsText inp t
retext h e = record {
  behind = h.behind;
  contents = h.contents ∙ ap (λ l. l ++ 0 ∷ h.behind) e;
  sized = h.sized;
  text = subst IsText e h.text;
}

-- The rounds of the loop.
module _ (fuel : ℕ) (inp : Input) (line rest : List ℕ) (h : HoldsText inp (line ++ 10 ∷ rest))
    (n : NoNewline line) where
  drain_round :
      (d : Drained fuel (next_input inp line rest h) rest (next-HoldsText inp line rest h))
      → drain (suc fuel) inp ≡ ok (line ∷ lines [] rest, d.after)
  unfolding drain
  drain_round d =
      rw (found inp line rest h n, ◌>>=◌)
        (rw (moved inp line rest h, ◌>>=◌)
          (rw (d.returns, ◌>>=◌) (ap (λ l. ok (l ∷ lines [] rest, d.after)) took)))
    where
      took : take (length line) inp.buf ≡ line
      took =
          ap (take (length line)) (contents_split inp line rest h)
          ∙ take-append (length line) line (10 ∷ (rest ++ 0 ∷ h.behind)) refl

  round-Drained :
      (d : Drained fuel (next_input inp line rest h) rest (next-HoldsText inp line rest h))
      → Drained (suc fuel) inp (line ++ 10 ∷ rest) h
  unfolding next-HoldsText
  round-Drained d =
      let (ls, u) = lines-line [] line rest n in
      let all = length-append line (10 ∷ rest) in
      let left = ap length u in
      record {
        after = d.after;
        returns = drain_round d ∙ ap (λ l. ok (l, d.after)) (sym ls);
        holds = retext d.holds (sym u);
        used =
            d.used
            ∙ -ℤ_twice inp.used_buf (suc (length line)) (length rest - length (unended [] rest))
            ∙ ap (λ (k : ℕ). inp.used_buf -ℤ pos k)
                (omega (arith, all, left, length-unended_le [] rest));
        same = d.same;
        clear = λ z short.
            d.clear (AllZero-append h.behind _ z (left_there-AllZero inp line rest h z short))
              (omega (arith, all, length-append h.behind (left_there inp line rest h)));
      }

drain_end :
    (fuel : ℕ) (inp : Input) (s : List ℕ) (h : HoldsText inp s)
    → NoNewline s
    → Drained (suc fuel) inp s h
unfolding drain
drain_end fuel inp s h n =
    let (ls, u) = lines-NoNewline [] s n in
    let looked = ap find_newline h.contents ∙ find_newline-NoNewline s h.behind n h.text in
    record {
      after = inp;
      returns = simp (looked, ls);
      holds = retext h (sym u);
      used =
          sym (-ℤ_zero inp.used_buf)
          ∙ ap (λ (k : ℕ). inp.used_buf -ℤ pos k) (omega (arith, ap length u));
      same = refl;
      clear = λ z short. z;
    }

-- The loop ends where it has a round for each byte of the string, and one more.
pub drain_lem :
    (fuel : ℕ) (inp : Input) (s : List ℕ) (h : HoldsText inp s)
    → length s < fuel
    → Drained fuel inp s h
drain_lem zero inp s h enough = absurd (omega arith)
drain_lem (suc fuel) inp s h enough = elim (first_line s) [
  | whole n ↦ drain_end fuel inp s h n
  | first line rest e n ↦
      subst (λ t. (k : HoldsText inp t) → length t < suc fuel → Drained (suc fuel) inp t k) (sym e)
        (λ k more. round-Drained fuel inp line rest k n (
          drain_lem fuel (next_input inp line rest k) rest (next-HoldsText inp line rest k)
            (omega (arith, more, length-append line (10 ∷ rest)))))
        h enough
]
