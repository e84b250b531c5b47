-- ===== src/Hash/Laws.antt =====
-- What hash.c's two functions tell apart.
use craftsman_console.Base.{
  ℕ, ◌+◌, ◌*◌, ◌%◌, ◌^◌, ◌<◌, ◌≡◌, ◌≢◌, refl, sym, ◌∙◌, Bool, true, false, List, [], ◌∷◌, ◌++◌,
  arith,
}
use craftsman_console.Hash.{djb2_const, char_value, hash_step, memhash_cont, memhash}

pub hash_step-lt : (signed : Bool) (h c : ℕ) → hash_step signed h c < 2 ^ 64
unfolding hash_step
hash_step-lt signed h c = omega arith

pub memhash_cont-lt :
    (signed : Bool) (h : ℕ) (cs : List ℕ) → h < 2 ^ 64 → memhash_cont signed h cs < 2 ^ 64
unfolding memhash_cont
memhash_cont-lt signed h [] k = k
memhash_cont-lt signed h (c ∷ cs) k =
    memhash_cont-lt signed (hash_step signed h c) cs (hash_step-lt signed h c)

-- 33 is odd, so a step loses nothing of the value before it.
times_33_injective :
    (h k v : ℕ)
    → h < 2 ^ 64
    → k < 2 ^ 64
    → ((h * 2 ^ 5 % 2 ^ 64 + h) % 2 ^ 64 + v) % 2 ^ 64
      ≡ ((k * 2 ^ 5 % 2 ^ 64 + k) % 2 ^ 64 + v) % 2 ^ 64
    → h ≡ k
times_33_injective h k v hs ks e = omega arith

hash_step-injective_seed :
    (signed : Bool) (h k c : ℕ)
    → h < 2 ^ 64
    → k < 2 ^ 64
    → hash_step signed h c ≡ hash_step signed k c
    → h ≡ k
unfolding hash_step
hash_step-injective_seed signed h k c = times_33_injective h k (char_value signed c)

hash_step-injective_char :
    (signed : Bool) (h c d : ℕ)
    → c < 256
    → d < 256
    → hash_step signed h c ≡ hash_step signed h d
    → c ≡ d
unfolding hash_step
hash_step-injective_char true h c d cs ds e = ground arith
hash_step-injective_char false h c d cs ds e = omega arith

-- Hashing the same bytes onto two different values gives two different values.
pub memhash_cont-injective :
    (signed : Bool) (h k : ℕ) (cs : List ℕ)
    → h < 2 ^ 64
    → k < 2 ^ 64
    → memhash_cont signed h cs ≡ memhash_cont signed k cs
    → h ≡ k
unfolding memhash_cont
memhash_cont-injective signed h k [] hs ks e = e
memhash_cont-injective signed h k (c ∷ cs) hs ks e = hash_step-injective_seed signed h k c hs ks (
    memhash_cont-injective signed (hash_step signed h c) (hash_step signed k c) cs
      (hash_step-lt signed h c) (hash_step-lt signed k c) e)

-- Hashing goes on where it stopped.
pub memhash_cont-append :
    (signed : Bool) (h : ℕ) (cs ds : List ℕ)
    → memhash_cont signed h (cs ++ ds) ≡ memhash_cont signed (memhash_cont signed h cs) ds
unfolding memhash_cont
memhash_cont-append signed h [] ds = refl
memhash_cont-append signed h (c ∷ cs) ds = memhash_cont-append signed (hash_step signed h c) cs ds

-- Two objects that differ in one byte have different hashes, wherever the byte stands, whatever the
-- other bytes are, and whether or not `char` is signed.
pub memhash-one_byte :
    (signed : Bool) (before after : List ℕ) (c d : ℕ)
    → c < 256
    → d < 256
    → c ≢ d
    → memhash signed (before ++ c ∷ after) ≢ memhash signed (before ++ d ∷ after)
unfolding memhash memhash_cont
memhash-one_byte signed before after c d cs ds ne e = ne (
    hash_step-injective_char signed _ c d cs ds (
      memhash_cont-injective signed _ _ after (hash_step-lt signed _ c) (hash_step-lt signed _ d) (
        sym (memhash_cont-append signed djb2_const before (c ∷ after))
        ∙ e
        ∙ memhash_cont-append signed djb2_const before (d ∷ after))))
