-- ===== src/Input/Lines.antt =====
-- The lines that input.c's loop hands over are those of the string in its buffer.
use craftsman_console.Base.{
  ℕ, zero, suc, ◌+◌, ◌≤◌, ◌≡◌, ◌≢◌, refl, ap, sym, inl, inr, false, Bool-cases, IsText-snoc, List,
  [], ◌∷◌, ◌++◌, append_assoc, append-nil, none, some, arith, ◌==◌, ==_iff, if◌then◌else◌, length,
  length-append, drop, IsText, ok,
}
use craftsman_console.Input.{buf_size, Input, find_newline}

-- Reading a text with `pending` before it: the lines that it ends, and what is left without an end.
abbrev pub lines : List ℕ → List ℕ → List (List ℕ)
lines pending [] = []
lines pending (c ∷ cs) = if c == 10 then pending ∷ lines [] cs else lines (pending ++ c ∷ []) cs

abbrev pub unended : List ℕ → List ℕ → List ℕ
unended pending [] = pending
unended pending (c ∷ cs) = unended (if c == 10 then [] else pending ++ c ∷ []) cs

abbrev pub NoNewline : List ℕ → Type 0
NoNewline [] = Unit
NoNewline (c ∷ cs) = (c ≢ 10) × NoNewline cs

-- the first line of a text, if it has one
pub data FirstLine (s : List ℕ) : Type 0 where
  whole : NoNewline s → FirstLine s
  first : (line rest : List ℕ) → s ≡ line ++ 10 ∷ rest → NoNewline line → FirstLine s

pub first_line : (s : List ℕ) → FirstLine s
first_line [] = whole tt
first_line (c ∷ cs) = elim (Bool-cases (c == 10)) [
  | inl e ↦ first [] cs (ap (λ (d : ℕ). d ∷ cs) ((==_iff c 10).0 e)) tt
  | inr e ↦ extend c cs (λ same. cc ((==_iff c 10).1 same)) (first_line cs)
]
  where
    extend : (c : ℕ) (cs : List ℕ) → c ≢ 10 → FirstLine cs → FirstLine (c ∷ cs)
    extend c cs ne (whole n) = whole (ne, n)
    extend c cs ne (first line rest e n) = first (c ∷ line) rest (ap (λ l. c ∷ l) e) (ne, n)

pub lines-NoNewline :
    (pending s : List ℕ) → NoNewline s → (lines pending s ≡ []) × (unended pending s ≡ pending ++ s)
lines-NoNewline pending [] n = (refl, sym (append-nil pending))
lines-NoNewline pending (c ∷ s) n =
    ground (arith, lines-NoNewline (pending ++ c ∷ []) s n.1, append_assoc pending (c ∷ []) s)

pub lines-line :
    (pending line rest : List ℕ)
    → NoNewline line
    → (lines pending (line ++ 10 ∷ rest) ≡ (pending ++ line) ∷ lines [] rest)
      × (unended pending (line ++ 10 ∷ rest) ≡ unended [] rest)
lines-line pending [] rest n = (ap (λ p. p ∷ lines [] rest) (sym (append-nil pending)), refl)
lines-line pending (c ∷ line) rest n =
    ground (arith, lines-line (pending ++ c ∷ []) line rest n.1, append_assoc pending (c ∷ []) line)

pub find_newline-NoNewline :
    (s rest : List ℕ) → NoNewline s → IsText s → find_newline (s ++ 0 ∷ rest) ≡ ok none
unfolding find_newline
find_newline-NoNewline [] rest n t = refl
find_newline-NoNewline (c ∷ s) rest n t = ground (arith, find_newline-NoNewline s rest n.1 t.1)

pub find_newline-line :
    (line rest : List ℕ)
    → NoNewline line
    → IsText line
    → find_newline (line ++ 10 ∷ rest) ≡ ok (some (length line))
unfolding find_newline
find_newline-line [] rest n t = refl
find_newline-line (c ∷ line) rest n t = ground (arith, find_newline-line line rest n.1 t.1)

pub IsText-split : (s t : List ℕ) → IsText (s ++ t) → IsText s × IsText t
IsText-split [] t h = (tt, h)
IsText-split (c ∷ s) t h = let (l, r) = IsText-split s t h.1 in ((h.0, l), r)

pub length-unended_le :
    (pending s : List ℕ) → length (unended pending s) ≤ length pending + length s
length-unended_le pending [] = omega arith
length-unended_le pending (c ∷ s) = ground (
  arith,
  length-unended_le [] s,
  length-unended_le (pending ++ c ∷ []) s,
  length-append pending (c ∷ []),
)

-- The lines of a stream that comes in two parts.
pub lines-append :
    (pending s t : List ℕ)
    → (lines pending (s ++ t) ≡ lines pending s ++ lines (unended pending s) t)
      × (unended pending (s ++ t) ≡ unended (unended pending s) t)
lines-append pending [] t = (refl, refl)
lines-append pending (c ∷ s) t =
    ground (arith, lines-append [] s t, lines-append (pending ++ c ∷ []) s t)

pub lines-pending :
    (before pending s : List ℕ)
    → NoNewline pending
    → (lines before (pending ++ s) ≡ lines (before ++ pending) s)
      × (unended before (pending ++ s) ≡ unended (before ++ pending) s)
lines-pending before [] s n = (rw append-nil, rw append-nil)
lines-pending before (c ∷ pending) s n =
    ground
      (arith, lines-pending (before ++ c ∷ []) pending s n.1, append_assoc before (c ∷ []) pending)

NoNewline-snoc : (s : List ℕ) (c : ℕ) → NoNewline s → (c == 10) ≡ false → NoNewline (s ++ c ∷ [])
NoNewline-snoc [] c n ne = ground arith
NoNewline-snoc (d ∷ s) c n ne = (n.0, NoNewline-snoc s c n.1 ne)

pub unended-NoNewline : (pending s : List ℕ) → NoNewline pending → NoNewline (unended pending s)
unended-NoNewline pending [] n = n
unended-NoNewline pending (c ∷ s) n = elim (Bool-cases (c == 10)) [
  | inl e ↦ rw e (unended-NoNewline [] s tt)
  | inr e ↦ rw e (unended-NoNewline (pending ++ c ∷ []) s (NoNewline-snoc pending c n e))
]

pub unended-IsText : (pending s : List ℕ) → IsText pending → IsText s → IsText (unended pending s)
unended-IsText pending [] p t = p
unended-IsText pending (c ∷ s) p t = elim (Bool-cases (c == 10)) [
  | inl e ↦ rw e (unended-IsText [] s tt t.1)
  | inr e ↦ rw e (unended-IsText (pending ++ c ∷ []) s (IsText-snoc pending c p t.0) t.1)
]

-- The buffer holds the string `s`, with its terminator and bytes behind it.
pub record HoldsText (inp : Input) (s : List ℕ) : Type 0 where
  pub behind : List ℕ
  pub contents : inp.buf ≡ s ++ 0 ∷ behind
  pub sized : length inp.buf ≡ buf_size
  pub text : IsText s

-- nothing but terminators
abbrev pub AllZero : List ℕ → Type 0
AllZero [] = Unit
AllZero (c ∷ cs) = (c ≡ 0) × AllZero cs

pub AllZero-append : (s t : List ℕ) → AllZero s → AllZero t → AllZero (s ++ t)
AllZero-append [] t hs ht = ht
AllZero-append (c ∷ s) t hs ht = (hs.0, AllZero-append s t hs.1 ht)

pub AllZero-drop : (n : ℕ) (s : List ℕ) → AllZero s → AllZero (drop n s)
AllZero-drop zero s h = h
AllZero-drop (suc n) [] h = tt
AllZero-drop (suc n) (c ∷ s) h = AllZero-drop n s h.1
