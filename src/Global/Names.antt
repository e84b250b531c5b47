-- ===== src/Global/Names.antt =====
-- How names compare and are stored, as global.c uses strncmp and strncpy.
use craftsman_console.Base.{
  ℕ, zero, suc, ◌≤◌, ◌<◌, ◌≡◌, refl, ap, ◌∙◌, true, false, List, [], ◌∷◌, ◌++◌, some, arith,
  ==_refl, length, length-append, length-replicate, length-take, get_elem?-set, get_elem?-some,
  take, set, replicate, get_elem?, IsText,
}
use craftsman_console.Global.{strncmp_eq}

-- Equal strings compare as equal, whatever follows them.
pub strncmp_eq-same :
    (n : ℕ) (s xs ys : List ℕ) → IsText s → strncmp_eq n (s ++ 0 ∷ xs) (s ++ 0 ∷ ys) ≡ true
unfolding strncmp_eq
strncmp_eq-same zero s xs ys t = refl
strncmp_eq-same (suc n) [] xs ys t = refl
strncmp_eq-same (suc n) (c ∷ s) xs ys t = ground (arith, strncmp_eq-same n s xs ys t.1)

-- Strings that compare as equal are equal, if they are shorter than the count.
pub strncmp_eq-eq :
    (n : ℕ) (s t xs ys : List ℕ)
    → IsText s
    → IsText t
    → length s < n
    → strncmp_eq n (s ++ 0 ∷ xs) (t ++ 0 ∷ ys) ≡ true
    → s ≡ t
unfolding strncmp_eq
strncmp_eq-eq zero s t xs ys hs ht h e = absurd (omega arith)
strncmp_eq-eq (suc n) [] [] xs ys hs ht h e = refl
strncmp_eq-eq (suc n) [] (d ∷ t) xs ys hs ht h e = ground arith
strncmp_eq-eq (suc n) (c ∷ s) [] xs ys hs ht h e = ground arith
strncmp_eq-eq (suc n) (c ∷ s) (d ∷ t) xs ys hs ht h e =
    ground (arith, strncmp_eq-eq n s t xs ys hs.1 ht.1)

-- A string of `n` bytes or more differs within them from one that ends there.
pub strncmp_eq-long :
    (n i : ℕ) (s xs ys : List ℕ)
    → IsText s
    → n ≤ length s
    → i < n
    → get_elem? ys i ≡ some 0
    → strncmp_eq n (s ++ xs) ys ≡ false
unfolding strncmp_eq
strncmp_eq-long zero i s xs ys t h k e = absurd (omega arith)
strncmp_eq-long (suc n) i [] xs ys t h k e = absurd (omega arith)
strncmp_eq-long (suc n) i (c ∷ s) xs [] t h k e = refl
strncmp_eq-long (suc n) zero (c ∷ s) xs (d ∷ ys) t h k e = ground (arith, t.0)
strncmp_eq-long (suc n) (suc i) (c ∷ s) xs (d ∷ ys) t h k e =
    ground (arith, t.0, strncmp_eq-long n i s xs ys t.1 (omega arith) (omega arith) e)

-- A name shorter than the field is stored with a terminator behind it.
pub stored :
    (n m : ℕ) (s : List ℕ)
    → length s ≤ n
    → n < m
    → (more : List ℕ) × (set (take (suc n) (s ++ replicate m 0)) n 0 ≡ s ++ 0 ∷ more)
stored n zero s h k = absurd (omega arith)
stored zero (suc m) [] h k = ([], refl)
stored (suc n) (suc m) [] h k = (set (take (suc n) (replicate m 0)) n 0, refl)
stored zero (suc m) (c ∷ s) h k = absurd (omega arith)
stored (suc n) (suc m) (c ∷ s) h k =
    let (more, e) = stored n (suc m) s (omega arith) (omega arith) in (more, ap (λ l. c ∷ l) e)

-- The last byte of the field is a terminator.
pub stored-last :
    (n m : ℕ) (s : List ℕ)
    → n < m
    → get_elem? (set (take (suc n) (s ++ replicate m 0)) n 0) n ≡ some 0
stored-last n m s k =
    let room : n < length (take (suc n) (s ++ replicate m 0)) = omega (
      arith,
      length-take (suc n) (s ++ replicate m 0),
      length-append s (replicate m 0),
      length-replicate m (zero),
    ) in
    let (x, e) = get_elem?-some (take (suc n) (s ++ replicate m 0)) n room in
    get_elem?-set (take (suc n) (s ++ replicate m 0)) n n 0 x e ∙ rw (==_refl n)
