-- ===== src/Tokenize/Words.antt =====
-- The tokens of execute.c's tokenize are the words of the line.
use craftsman_console.Base.{
  ℕ, zero, suc, ◌+◌, ◌≤◌, ◌<◌, ◌≡◌, refl, ap, ap₂, sym, ◌∙◌, true, false, Bool-cases, inl, inr,
  List, [], ◌∷◌, ◌++◌, append_assoc, append-nil, map, some, arith, ltb, lt→ltb, le→ltb, ◌==◌,
  ==_iff, if◌then◌else◌, length, length-append, length-map, get_elem?, get_elem?-append, set,
  set-append, drop, drop-append, cstring, cstring-text, IsText, IsText-snoc, IsText-append, Outcome,
  ok,
}
use craftsman_console.Tokenize.{tokenize_from, tokenize, token_string}

-- The words of a line, `pending` being the word read so far: at each of the first `k` spaces a word
-- ends, and the last word is the rest, spaces included.
abbrev pub words : List ℕ → ℕ → List ℕ → List (List ℕ)
words pending zero cs = (pending ++ cs) ∷ []
words pending (suc k) [] = pending ∷ []
words pending (suc k) (c ∷ cs) =
    if c == b' ' then pending ∷ words [] k cs else words (pending ++ c ∷ []) (suc k) cs

-- the words with a space between each two
abbrev pub unwords : List (List ℕ) → List ℕ
unwords [] = []
unwords (w ∷ []) = w
unwords (w ∷ v ∷ ws) = w ++ b' ' ∷ unwords (v ∷ ws)

-- What the loop makes of a line `done ++ tail_before`: the tokens and the line, in which `done` is left
-- alone, and the strings at `done`'s end and at the new tokens.
record Cut (done : List ℕ) (tokens : List ℕ) (expected : List (List ℕ))
    (result : Outcome (List ℕ × List ℕ)) : Type 0 where
  new : List ℕ
  tail : List ℕ
  returns : result ≡ ok (tokens ++ new, done ++ tail)
  strings : cstring tail ∷ map (token_string (done ++ tail)) new ≡ map some expected

module _ (token_count : ℕ) (spare : List ℕ) where
  tokenize_from-full :
      (left i : ℕ) (line tokens : List ℕ)
      → ltb (length tokens) token_count ≡ false
      → tokenize_from left i token_count line tokens ≡ ok (tokens, line)
  unfolding tokenize_from
  tokenize_from-full zero i line tokens full = refl
  tokenize_from-full (suc left) i line tokens full = rw (full, tokenize_from)

  tokenize_from-stop :
      (rest done pending tokens : List ℕ) (left i : ℕ)
      → IsText pending
      → IsText rest
      → (ltb (length tokens) token_count ≡ false)
      → Cut done tokens
          ((pending ++ rest) ∷ [])
          (tokenize_from left i token_count (done ++ (pending ++ (rest ++ 0 ∷ spare))) tokens)
  unfolding tokenize_from
  tokenize_from-stop rest done pending tokens left i tp tr full = record {
    new = [];
    tail = pending ++ (rest ++ 0 ∷ spare);
    returns =
        tokenize_from-full left i _ tokens full ∙ ap (λ l. ok (l, line)) (sym (append-nil tokens));
    strings =
        ap (λ o. o ∷ [])
          (ap cstring (sym (append_assoc pending rest (0 ∷ spare)))
            ∙ cstring-text (pending ++ rest) spare (IsText-append pending rest tp tr));
  }
    where
      line : List ℕ
      line = done ++ (pending ++ (rest ++ 0 ∷ spare))

  -- A step at the byte `c` behind `done ++ pending`, with room for one more token.
  module _ (done pending tokens more : List ℕ) (c left i : ℕ) (e : i ≡ length done + length pending)
      (room : length tokens < token_count) where
    byte_at : get_elem? (done ++ (pending ++ c ∷ more)) i ≡ some c
    byte_at =
        ap (λ l. get_elem? l i) (sym (append_assoc done pending (c ∷ more)))
        ∙ get_elem?-append i (done ++ pending) more c (omega (arith, length-append done pending))

    terminated : set (done ++ (pending ++ c ∷ more)) i 0 ≡ (done ++ (pending ++ 0 ∷ [])) ++ more
    terminated =
        ap (λ l. set l i 0) (sym (append_assoc done pending (c ∷ more)))
        ∙ set-append i (done ++ pending) more c 0 (omega (arith, length-append done pending))
        ∙ simp append_assoc

    step_at_space :
        (c == b' ') ≡ true
        → tokenize_from (suc left) i token_count (done ++ (pending ++ c ∷ more)) tokens
          ≡ tokenize_from left
              (i + 1)
              token_count
              ((done ++ (pending ++ 0 ∷ [])) ++ more)
              (tokens ++ (i + 1) ∷ [])
    unfolding tokenize_from
    step_at_space space =
        rw (lt→ltb (length tokens) token_count room, byte_at, space, terminated, tokenize_from)

    step_inside :
        (c == b' ') ≡ false
        → tokenize_from (suc left) i token_count (done ++ (pending ++ c ∷ more)) tokens
          ≡ tokenize_from left (i + 1) token_count (done ++ ((pending ++ c ∷ []) ++ more)) tokens
    unfolding tokenize_from
    step_inside other = rw (
      lt→ltb (length tokens) token_count room,
      byte_at,
      other,
      append_assoc pending (c ∷ []) more,
      tokenize_from,
    )

  Cut-space :
      (done pending tokens : List ℕ) (i : ℕ) (expected : List (List ℕ))
      (result : Outcome (List ℕ × List ℕ))
      → i ≡ length done + length pending
      → IsText pending
      → Cut (done ++ (pending ++ 0 ∷ [])) (tokens ++ (i + 1) ∷ []) expected result
      → Cut done tokens (pending ∷ expected) result
  Cut-space done pending tokens i expected result e tp cut = record {
    new = (i + 1) ∷ cut.new;
    tail = pending ++ 0 ∷ cut.tail;
    returns =
        cut.returns ∙ ap₂ (λ ts l. ok (ts, l)) (append_assoc tokens ((i + 1) ∷ []) cut.new) regroup;
    strings = ap₂ ◌∷◌ (cstring-text pending cut.tail tp) (
        ap (λ o. o ∷ map (token_string line) cut.new) (ap cstring at_token)
        ∙ ap (λ l. cstring cut.tail ∷ map (token_string l) cut.new) (sym regroup)
        ∙ cut.strings);
  }
    where
      line : List ℕ
      line = done ++ (pending ++ 0 ∷ cut.tail)

      regroup : (done ++ (pending ++ 0 ∷ [])) ++ cut.tail ≡ line
      regroup = simp append_assoc

      at_token : drop (i + 1) line ≡ cut.tail
      at_token =
          ap (drop (i + 1)) (sym regroup)
          ∙ drop-append (i + 1) (done ++ (pending ++ 0 ∷ [])) cut.tail (
              omega (arith, length-append done (pending ++ 0 ∷ []), length-append pending (0 ∷ [])))

  tokenize_from-Cut :
      (rest done pending tokens : List ℕ) (k i : ℕ)
      → i ≡ length done + length pending
      → IsText pending
      → IsText rest
      → length tokens + k ≡ token_count
      → Cut done tokens (words pending k rest) (
          tokenize_from
            (length rest)
            i
            token_count
            (done ++ (pending ++ (rest ++ 0 ∷ spare)))
            tokens)
  tokenize_from-Cut rest done pending tokens zero i e tp tr count =
      tokenize_from-stop rest done pending tokens (length rest) i tp tr (le→ltb _ _ (omega arith))
  tokenize_from-Cut [] done pending tokens (suc k) i e tp tr count = record {
    new = [];
    tail = pending ++ 0 ∷ spare;
    returns = unfold tokenize_from in rw (append-nil tokens);
    strings = ap (λ o. o ∷ []) (cstring-text pending spare tp);
  }
  tokenize_from-Cut (c ∷ rest) done pending tokens (suc k) i e tp tr count =
      elim (Bool-cases (c == b' ')) [
        | inl space ↦
            rw
              (
                space,
                step_at_space done pending tokens (rest ++ 0 ∷ spare) c (length rest) i e
                    (omega arith) space,
              )
              (Cut-space done pending tokens i (words [] k rest) _ e tp (
                tokenize_from-Cut rest (done ++ (pending ++ 0 ∷ [])) [] (tokens ++ (i + 1) ∷ []) k
                  (i + 1)
                  (omega
                    (arith, length-append done (pending ++ 0 ∷ []), length-append pending (0 ∷ [])))
                  tt tr.1 (omega (arith, length-append tokens ((i + 1) ∷ [])))))
        | inr other ↦
            rw
              (
                other,
                step_inside done pending tokens (rest ++ 0 ∷ spare) c (length rest) i e
                    (omega arith) other,
              )
              (tokenize_from-Cut rest done (pending ++ c ∷ []) tokens (suc k) (i + 1)
                (omega (arith, length-append pending (c ∷ []))) (IsText-snoc pending c tp tr.0) tr.1
                count)
      ]

length-words :
    (pending : List ℕ) (k : ℕ) (cs : List ℕ)
    → (1 ≤ length (words pending k cs)) × (length (words pending k cs) ≤ k + 1)
length-words pending zero cs = omega arith
length-words pending (suc k) [] = omega arith
length-words pending (suc k) (c ∷ cs) =
    ground (arith, length-words [] k cs, length-words (pending ++ c ∷ []) (suc k) cs)

unwords-cons :
    (w : List ℕ) (ws : List (List ℕ)) → 1 ≤ length ws → unwords (w ∷ ws) ≡ w ++ b' ' ∷ unwords ws
unwords-cons w [] h = absurd (omega arith)
unwords-cons w (v ∷ ws) h = refl

unwords-words :
    (pending : List ℕ) (k : ℕ) (cs : List ℕ) → unwords (words pending k cs) ≡ pending ++ cs
unwords-words pending zero cs = refl
unwords-words pending (suc k) [] = sym (append-nil pending)
unwords-words pending (suc k) (c ∷ cs) = elim (Bool-cases (c == b' ')) [
  | inl space ↦ rw space (
      unwords-cons pending (words [] k cs) (length-words [] k cs).0
      ∙ ap₂ (λ (d : ℕ) t. pending ++ d ∷ t) (sym ((==_iff c b' ').0 space)) (unwords-words [] k cs))
  | inr other ↦
      rw other (unwords-words (pending ++ c ∷ []) (suc k) cs ∙ append_assoc pending (c ∷ []) cs)
]

-- A line of text is cut into its words: the tokens are strings in the line, at least one and at most
-- `token_count`, in order; with a space between each two they are the line again, so that nothing is
-- lost but the spaces at which it was cut.
pub tokenize-words :
    (s spare : List ℕ) (k : ℕ)
    → IsText s
    → (tokens : List ℕ) × (line : List ℕ) × (tokenize (length s) (s ++ 0 ∷ spare) (k + 1)
        ≡ ok (tokens, line))
      × (map (token_string line) tokens ≡ map some (words [] k s))
      × (unwords (words [] k s) ≡ s)
      × (1 ≤ length tokens)
      × (length tokens ≤ k + 1)
unfolding tokenize
tokenize-words s spare k t =
    let cut = tokenize_from-Cut (k + 1) spare s [] [] (0 ∷ []) k 0 refl tt t (omega arith) in
    let same : length (0 ∷ cut.new) ≡ length (words [] k s) =
      sym (length-map (token_string cut.tail) (0 ∷ cut.new))
      ∙ ap length cut.strings
      ∙ length-map some (words [] k s) in
    (
      0 ∷ cut.new,
      cut.tail,
      cut.returns,
      cut.strings,
      unwords-words [] k s,
      omega (arith, same, length-words [] k s),
      omega (arith, same, length-words [] k s),
    )
