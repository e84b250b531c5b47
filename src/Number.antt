-- ===== src/Number.antt =====
-- stdlib.h's strtol with base 0, as execute.c calls it, and what the program needs of floating point
-- numbers, which are 64-bit patterns here.
use craftsman_console.Base.{
  ℕ, ◌+◌, ◌-◌, ◌*◌, ◌^◌, ◌%◌, min, Bool, true, false, ◌||◌, ◌&&◌, List, [], ◌∷◌, leb, ◌==◌,
  if◌then◌else◌,
}

-- Operations on `double`, by their bit patterns; `truncate` is the conversion to `size_t`.
pub record Doubles : Type 0 where
  pub add : ℕ → ℕ → ℕ
  pub sub : ℕ → ℕ → ℕ
  pub less : ℕ → ℕ → Bool
  pub of_int : ℕ → ℕ
  pub truncate : ℕ → ℕ
  pub strtod : List ℕ → ℕ

abbrev is_space : ℕ → Bool
is_space c = (c == b' ') || (leb 9 c && leb c 13)

abbrev digit_value : ℕ → ℕ
digit_value c =
    if leb b'0' c && leb c b'9'
    then c - b'0'
    else if leb b'a' c && leb c b'z'
    then c - b'a' + 10
    else if leb b'A' c && leb c b'Z'
    then c - b'A' + 10
    else 36

-- the digits of a base up to the first byte that is none
digits_from : ℕ → ℕ → List ℕ → ℕ
digits_from base acc [] = acc
digits_from base acc (c ∷ cs) =
    let rest = digits_from base (acc * base + digit_value c) cs in
    if leb base (digit_value c) then acc else rest

after_x : ℕ → List ℕ → ℕ
unfolding digits_from
after_x x [] = 0
after_x x (d ∷ cs) =
    if ((x == b'x') || (x == b'X')) && leb (digit_value d + 1) 16
    then digits_from 16 0 (d ∷ cs)
    else digits_from 8 0 (x ∷ d ∷ cs)

-- Base 0: 16 behind `0x`, 8 behind `0`, else 10.
magnitude : List ℕ → ℕ
unfolding after_x digits_from
magnitude [] = 0
magnitude (c ∷ []) = digits_from 10 0 (c ∷ [])
magnitude (c ∷ x ∷ cs) =
    if c == b'0'
    then (if (x == b'x') || (x == b'X') then after_x x cs else digits_from 8 0 (x ∷ cs))
    else digits_from 10 0 (c ∷ x ∷ cs)

-- A value out of the range of `long` is clamped. The result is converted to `size_t`.
unsigned_of : Bool → ℕ → ℕ
unsigned_of false n = min n (2 ^ 63 - 1)
unsigned_of true n = (2 ^ 64 - min n (2 ^ 63)) % 2 ^ 64

signed_number : List ℕ → ℕ
unfolding magnitude unsigned_of
signed_number [] = 0
signed_number (c ∷ cs) =
    if c == b'-'
    then unsigned_of true (magnitude cs)
    else if c == b'+'
    then unsigned_of false (magnitude cs)
    else unsigned_of false (magnitude (c ∷ cs))

unfoldable pub strtol : List ℕ → ℕ
unfolding signed_number
strtol [] = 0
strtol (c ∷ cs) = let rest = strtol cs in if is_space c then rest else signed_number (c ∷ cs)

-- strchr's test
unfoldable pub contains : ℕ → List ℕ → Bool
contains c [] = false
contains c (d ∷ ds) = (c == d) || contains c ds
