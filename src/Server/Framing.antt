-- ===== src/Server/Framing.antt =====
-- What server_process of network_server.c sends, as a function of the bytes received.
use craftsman_console.Base.{
  ℕ, suc, ◌+◌, ◌-◌, ◌^◌, ◌≤◌, ◌<◌, ◌≡◌, refl, ap, sym, ◌∙◌, false, List, [], ◌∷◌, ◌++◌,
  append_assoc, arith, some, ◌==◌, ==_iff, if◌then◌else◌, length, length-append, drop, take-append,
  drop-append, get_elem?, get_elem?-append, ok, Bool-cases, inl, inr,
}
use craftsman_console.Server.{le32, player, server_message, process_from, server_process}

-- Reading a stream with `pending` read and not yet ended: the messages that it ends, and what is
-- left without an end.
abbrev pub messages : List ℕ → List ℕ → List (List ℕ)
messages pending [] = []
messages pending (c ∷ cs) =
    if c == 0 then pending ∷ messages [] cs else messages (pending ++ c ∷ []) cs

abbrev pub unended : List ℕ → List ℕ → List ℕ
unended pending [] = pending
unended pending (c ∷ cs) = unended (if c == 0 then [] else pending ++ c ∷ []) cs

-- the three writes for a message, and the bytes that they make up
abbrev pub writes : List ℕ → List (List ℕ)
writes c = le32 (length c + 1) ∷ player ∷ (c ++ 0 ∷ []) ∷ []

abbrev pub all_writes : List (List ℕ) → List (List ℕ)
all_writes [] = []
all_writes (c ∷ cs) = writes c ++ all_writes cs

server_message-writes :
    (c rest : List ℕ)
    → length c + 1 < 2 ^ 32
    → server_message (length c) (c ++ 0 ∷ rest) ≡ ok (writes c)
unfolding server_message
server_message-writes c rest h = ground (
  arith,
  length-append c (0 ∷ rest),
  append_assoc c (0 ∷ []) rest,
  take-append (length c + 1) (c ++ 0 ∷ []) rest (omega (arith, length-append c (0 ∷ []))),
)

-- The loop's step at a byte `c` behind `done ++ pending`.
module _ (done pending rest : List ℕ) (c i start : ℕ) (ei : i ≡ length done + length pending)
    (es : start ≡ length done) where
  byte_at : get_elem? (done ++ (pending ++ c ∷ rest)) i ≡ some c
  byte_at =
      ap (λ t. get_elem? t i) (sym (append_assoc done pending (c ∷ rest)))
      ∙ get_elem?-append i (done ++ pending) rest c (omega (arith, length-append done pending))

  ends_message :
      c ≡ 0
      → length pending + 1 < 2 ^ 32
      → server_message (i - start) (drop start (done ++ (pending ++ c ∷ rest)))
        ≡ ok (writes pending)
  ends_message z small =
      rw (drop-append start done (pending ++ c ∷ rest) es, z, len)
        (server_message-writes pending rest small)
    where
      len : i - start ≡ length pending
      len = omega arith

  regroup_ended : done ++ (pending ++ c ∷ rest) ≡ (done ++ (pending ++ c ∷ [])) ++ rest
  regroup_ended = simp append_assoc

  regroup_pending : done ++ (pending ++ c ∷ rest) ≡ done ++ ((pending ++ c ∷ []) ++ rest)
  regroup_pending = simp append_assoc

  process_from-end :
      c ≡ 0
      → length pending + 1 < 2 ^ 32
      → (left : ℕ) {later : List (List ℕ)} {end : ℕ}
      → process_from left (i + 1) (i + 1) ((done ++ (pending ++ c ∷ [])) ++ rest) ≡ ok (later, end)
      → process_from (suc left) i start (done ++ (pending ++ c ∷ rest))
        ≡ ok (writes pending ++ later, end)
  unfolding process_from
  process_from-end z small left ih =
      rw (byte_at, (==_iff c 0).1 z, ends_message z small, regroup_ended, ih)

  process_from-inside :
      (c == 0) ≡ false
      → (left : ℕ) {later : List (List ℕ)} {end : ℕ}
      → process_from left (i + 1) start (done ++ ((pending ++ c ∷ []) ++ rest)) ≡ ok (later, end)
      → process_from (suc left) i start (done ++ (pending ++ c ∷ rest)) ≡ ok (later, end)
  unfolding process_from
  process_from-inside nz left ih = rw (byte_at, nz, regroup_pending, ih)

-- The loop in a buffer `done ++ pending ++ rest ++ spare`, at the first byte of `rest`, sends the messages that
-- `pending ++ rest` ends, and stops where the unended part begins.
process_from_lem :
    (rest spare done pending : List ℕ) (i start : ℕ)
    → i ≡ length done + length pending
    → start ≡ length done
    → length done + length pending + length rest < 2 ^ 32
    → process_from (length rest) i start (done ++ (pending ++ (rest ++ spare)))
      ≡ ok (
        all_writes (messages pending rest),
        length done + length pending + length rest - length (unended pending rest),
      )
process_from_lem [] spare done pending i start ei es small =
    unfold process_from in ap (λ (n : ℕ). ok ([], n)) (omega arith)
process_from_lem (c ∷ rest) spare done pending i start ei es small = elim (Bool-cases (c == 0)) [
  | inl z ↦ rw z (
      process_from-end done pending (rest ++ spare) c i start ei es ((==_iff c 0).0 z) (omega arith)
        (length rest)
        (process_from_lem rest spare (done ++ (pending ++ c ∷ [])) [] (i + 1) (i + 1)
            (omega (arith, longer)) (omega (arith, longer)) (omega (arith, longer))
          ∙ ap (λ (n : ℕ). ok (all_writes (messages [] rest), n)) (omega (arith, longer))))
  | inr nz ↦ rw nz (
      process_from-inside done pending (rest ++ spare) c i start ei es nz (length rest) (
        process_from_lem rest spare done (pending ++ c ∷ []) (i + 1) start
          (omega (arith, length-append pending (c ∷ []))) es
          (omega (arith, length-append pending (c ∷ [])))
        ∙ ap (λ (n : ℕ). ok (all_writes (messages (pending ++ c ∷ []) rest), n))
            (omega (arith, length-append pending (c ∷ [])))))
]
  where
    longer : length (done ++ (pending ++ c ∷ [])) ≡ length done + length pending + 1
    longer = omega (arith, length-append done (pending ++ c ∷ []), length-append pending (c ∷ []))

pub length-unended :
    (pending cs : List ℕ) → length (unended pending cs) ≤ length pending + length cs
length-unended pending [] = omega arith
length-unended pending (c ∷ cs) = ground (
  arith,
  length-unended [] cs,
  length-unended (pending ++ c ∷ []) cs,
  length-append pending (c ∷ []),
)

-- `server_process` sends the terminated messages among the first `length bytes` bytes of the buffer,
-- fewer than 2 ^ 32, in order, and returns how many bytes these take; what follows in the buffer
-- plays no part.
pub server_process_lem :
    (bytes spare : List ℕ)
    → length bytes < 2 ^ 32
    → server_process (length bytes) (bytes ++ spare)
      ≡ ok (all_writes (messages [] bytes), length bytes - length (unended [] bytes))
unfolding server_process
server_process_lem bytes spare small =
    process_from_lem bytes spare [] [] 0 0 refl refl (omega arith)
    ∙ ap (λ (n : ℕ). ok (all_writes (messages [] bytes), n)) (omega arith)
