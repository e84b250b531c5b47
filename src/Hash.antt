-- ===== src/Hash.antt =====
-- hash.c: a djb2 hash over the bytes of an object, in `uint64_t`.
pub mod Laws
pub mod Tests
use craftsman_console.Base.{
  ℕ, ◌+◌, ◌-◌, ◌*◌, ◌%◌, ◌^◌, Bool, true, false, List, [], ◌∷◌, leb, if◌then◌else◌,
}

abbrev pub djb2_const : ℕ
djb2_const = 5381

-- A `char` converted to `uint64_t`; whether `char` is signed is the platform's choice, `signed`.
abbrev pub char_value : Bool → ℕ → ℕ
char_value true c = if leb 128 c then c + 2 ^ 64 - 256 else c
char_value false c = c

-- `((hash_val << 5) + hash_val) + *read_iter`
unfoldable pub hash_step : Bool → ℕ → ℕ → ℕ
hash_step signed h c = ((h * 2 ^ 5 % 2 ^ 64 + h) % 2 ^ 64 + char_value signed c) % 2 ^ 64

-- The bytes are those from `buf` up to `buf + len`.
unfoldable pub memhash_cont : Bool → ℕ → List ℕ → ℕ
memhash_cont signed hash_val [] = hash_val
memhash_cont signed hash_val (c ∷ cs) = memhash_cont signed (hash_step signed hash_val c) cs

-- `memhash`'s loop is that of `memhash_cont`.
unfoldable pub memhash : Bool → List ℕ → ℕ
memhash signed buf = memhash_cont signed djb2_const buf
