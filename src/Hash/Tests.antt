-- ===== src/Hash/Tests.antt =====
-- Runs of hash.c, and the theorem on it at two concrete objects.
use craftsman_console.Base.{◌≡◌, ◌≢◌, refl, true, false, [], ◌∷◌, arith}
use craftsman_console.Hash.{hash_step, memhash_cont, memhash}
use craftsman_console.Hash.Laws.{memhash-one_byte}

-- djb2 of "ab"
hash_ab : memhash false (b'a' ∷ b'b' ∷ []) ≡ 5863208
unfolding memhash memhash_cont hash_step
hash_ab = refl

differ_in_middle : memhash true (b'a' ∷ 200 ∷ b'b' ∷ []) ≢ memhash true (b'a' ∷ 201 ∷ b'b' ∷ [])
differ_in_middle =
    memhash-one_byte true (b'a' ∷ []) (b'b' ∷ []) 200 201 (omega arith) (omega arith) (omega arith)
