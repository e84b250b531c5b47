-- ===== src/Tokenize.antt =====
-- tokenize of execute.c: a command line is cut up in place, by writing terminators over spaces.
pub mod Words
pub mod Tests
use craftsman_console.Base.{
  ℕ, zero, suc, ◌+◌, Bool, true, false, List, [], ◌∷◌, ◌++◌, Option, some, none, ltb, ◌==◌,
  if◌then◌else◌, length, get_elem?, set, drop, map, cstring, Outcome, ok, or_fault, ◌>>=◌,
}

-- The tokens are offsets into the line, in the order of `token[0]`, `token[1]`, …; `iter` is `i`, and
-- `left` bytes are before `end`.
unfoldable pub tokenize_from : ℕ → ℕ → ℕ → List ℕ → List ℕ → Outcome (List ℕ × List ℕ)
tokenize_from zero i token_count line tokens = ok (tokens, line)
tokenize_from (suc left) i token_count line tokens = elim (ltb (length tokens) token_count) [
  | false ↦ ok (tokens, line)
  | true ↦ or_fault (get_elem? line i) >>= λ c.
      tokenize_from left (i + 1) token_count (if c == b' ' then set line i 0 else line)
        (if c == b' ' then tokens ++ (i + 1) ∷ [] else tokens)
]

-- The tokens, whose number is the result of the source's function, and the line after it.
unfoldable pub tokenize : ℕ → List ℕ → ℕ → Outcome (List ℕ × List ℕ)
unfolding tokenize_from
tokenize len line token_count = tokenize_from len 0 token_count line (0 ∷ [])

-- the string that a token points to
abbrev pub token_string : List ℕ → ℕ → Option (List ℕ)
token_string line token = cstring (drop token line)
