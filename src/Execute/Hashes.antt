-- ===== src/Execute/Hashes.antt =====
-- What execute_hash of execute.c puts in the table of hashes.
use craftsman_console.Base.{
  ℕ, zero, suc, ◌<◌, ◌≡◌, refl, ap, sym, ◌∙◌, Bool, List, [], ◌∷◌, ◌++◌, append-nil, some, arith,
  length, get_elem?, take,
}
use craftsman_console.Hash.{djb2_const, memhash, memhash_cont}
use craftsman_console.Hash.Laws.{memhash_cont-append}
use craftsman_console.Dlfn.{Object}
use craftsman_console.Execute.{World}
use craftsman_console.Execute.Commands.{hash_from, execute_hash}

-- The bytes of objects, one behind the other.
abbrev pub bytes_of : List Object → List ℕ
bytes_of [] = []
bytes_of (o ∷ objects) = o.bytes ++ bytes_of objects

get_elem?-hash_from :
    (signed : Bool) (h : ℕ) (objects : List Object) (more : List ℕ) (i : ℕ)
    → i < length objects
    → get_elem? (hash_from signed h objects ++ more) i
      ≡ some (memhash_cont signed h (bytes_of (take (suc i) objects)))
unfolding hash_from
get_elem?-hash_from signed h [] more i k = absurd (omega arith)
get_elem?-hash_from signed h (o ∷ objects) more zero k =
    ap (λ b. some (memhash_cont signed h b)) (sym (append-nil o.bytes))
get_elem?-hash_from signed h (o ∷ objects) more (suc i) k =
    get_elem?-hash_from signed (memhash_cont signed h o.bytes) objects more i (omega arith)
    ∙ ap some (sym (memhash_cont-append signed h o.bytes (bytes_of (take (suc i) objects))))

-- After `execute_hash` the entry of an object is the hash of the bytes of all objects up to it, as if
-- they were one object; nothing else of the world is changed.
pub execute_hash-prefix :
    (signed : Bool) (w : World) (i : ℕ)
    → i < length w.objects
    → (get_elem? (execute_hash signed w).hash_objects i
        ≡ some (memhash signed (bytes_of (take (suc i) w.objects))))
      × (execute_hash signed w ≡ record w { hash_objects = (execute_hash signed w).hash_objects })
unfolding execute_hash memhash memhash_cont
execute_hash-prefix signed w i h = (get_elem?-hash_from signed djb2_const w.objects _ i h, refl)
