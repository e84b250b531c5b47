-- ===== src/Tokenize/Tests.antt =====
-- A run of execute.c's tokenize, and the theorem on it at a concrete line.
use craftsman_console.Base.{ℕ, ◌≤◌, ◌≡◌, refl, List, [], ◌∷◌, ◌++◌, map, some, arith, length, ok}
use craftsman_console.Tokenize.{tokenize, token_string}
use craftsman_console.Tokenize.Words.{words, unwords, tokenize-words}

-- "v x 5 6"
abbrev input : List ℕ
input = b'v' ∷ b' ' ∷ b'x' ∷ b' ' ∷ b'5' ∷ b' ' ∷ b'6' ∷ []

three_words : words [] 2 input ≡ (b'v' ∷ []) ∷ (b'x' ∷ []) ∷ (b'5' ∷ b' ' ∷ b'6' ∷ []) ∷ []
three_words = refl

offsets :
    tokenize 7 (input ++ 0 ∷ []) 3
    ≡ ok (0 ∷ 2 ∷ 4 ∷ [], b'v' ∷ 0 ∷ b'x' ∷ 0 ∷ b'5' ∷ b' ' ∷ b'6' ∷ 0 ∷ [])
unfolding tokenize
offsets = refl

cut_input :
    (tokens : List ℕ) × (line : List ℕ) × (tokenize 7 (input ++ 0 ∷ 9 ∷ []) 3 ≡ ok (tokens, line))
    × (map (token_string line) tokens ≡ map some (words [] 2 input))
    × (unwords (words [] 2 input) ≡ input)
    × (1 ≤ length tokens)
    × (length tokens ≤ 3)
cut_input = tokenize-words input (9 ∷ []) 2 (omega arith)
