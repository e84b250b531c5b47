-- ===== src/Server/Stream.antt =====
-- Rounds of network_server.c's server_routine, as a function of the stream of bytes received.
use craftsman_console.Base.{
  ℕ, ◌+◌, ◌-◌, ◌%◌, ◌^◌, ◌≤◌, ◌≡◌, refl, ap, sym, ◌∙◌, List, [], ◌∷◌, ◌++◌, append_assoc,
  append-nil, arith, ◌==◌, ==_iff, length, length-append, drop, length-drop, IsText, IsText-snoc,
  ok, Bool-cases, inl, inr, memcpy-append, memmove, memmove-append, length-zero,
}
use craftsman_console.Server.{
  Server, goes_on, read_bytes, server_process, receive, process_received, server_recv_max,
}
use craftsman_console.Server.Framing.{messages, unended, all_writes, server_process_lem}

-- The server has `pending` in its buffer, with no message ended, and its buffer has its full size.
pub record Pends (s : Server) (pending : List ℕ) : Type 0 where
  pub spare : List ℕ
  pub contents : s.receive_buffer ≡ pending ++ spare
  pub full_size : length s.receive_buffer ≡ server_recv_max
  pub used : s.used_receive_buffer ≡ length pending

-- After the unended part nothing more is ended.
messages-of_text :
    (pending cs : List ℕ)
    → IsText cs
    → (messages pending cs ≡ []) × (unended pending cs ≡ pending ++ cs)
messages-of_text pending [] t = (refl, sym (append-nil pending))
messages-of_text pending (c ∷ cs) t =
    ground (arith, messages-of_text (pending ++ c ∷ []) cs t.1, append_assoc pending (c ∷ []) cs)

-- What is read after `pending` ends the messages that it would end had it come with `pending`.
pub messages-append :
    (pending cs ds : List ℕ)
    → (messages pending (cs ++ ds) ≡ messages pending cs ++ messages (unended pending cs) ds)
      × (unended pending (cs ++ ds) ≡ unended (unended pending cs) ds)
messages-append pending [] ds = (refl, refl)
messages-append pending (c ∷ cs) ds =
    ground (arith, messages-append [] cs ds, messages-append (pending ++ c ∷ []) cs ds)

-- The unended part is the end of what was read.
ended_part :
    (pending cs : List ℕ) → (front : List ℕ) × (pending ++ cs ≡ front ++ unended pending cs)
ended_part pending [] = ([], append-nil pending)
ended_part pending (c ∷ cs) = elim (Bool-cases (c == 0)) [
  | inl z ↦
      let (front, e) = ended_part [] cs in
      (
        pending ++ c ∷ front,
        rw z (ap (λ t. pending ++ c ∷ t) e ∙ sym (append_assoc pending (c ∷ front) _)),
      )
  | inr nz ↦
      let (front, e) = ended_part (pending ++ c ∷ []) cs in
      (front, rw nz (sym (append_assoc pending (c ∷ []) cs) ∙ e))
]

pub unended-IsText : (pending cs : List ℕ) → IsText pending → IsText (unended pending cs)
unended-IsText pending [] t = t
unended-IsText pending (c ∷ cs) t = elim (Bool-cases (c == 0)) [
  | inl z ↦ rw z (unended-IsText [] cs tt)
  | inr nz ↦ rw nz (unended-IsText (pending ++ c ∷ []) cs (IsText-snoc pending c t (ground arith)))
]

-- Text that is pending is as if it came with what is read next.
pub messages-pending :
    (pending bytes : List ℕ)
    → IsText pending
    → (messages [] (pending ++ bytes) ≡ messages pending bytes)
      × (unended [] (pending ++ bytes) ≡ unended pending bytes)
messages-pending pending bytes t =
    let (none_ended, all_pending) = messages-of_text [] pending t in
    let (m, u) = messages-append [] pending bytes in
    (rw (none_ended, all_pending) at m, rw all_pending at u)

module _ (s : Server) (pending bytes : List ℕ) (p : Pends s pending) (t : IsText pending)
    (fits : length pending + length bytes ≤ server_recv_max) where
  abbrev read_so_far : List ℕ
  read_so_far = pending ++ bytes

  -- the server after the call of read
  pub received : Server
  received = record s {
    receive_buffer = pending ++ (bytes ++ drop (length bytes) p.spare);
    used_receive_buffer = length pending + length bytes;
    bytes_received = (s.bytes_received + length bytes) % 2 ^ 64;
  }

  pub receive_lem : receive s (read_bytes bytes) ≡ ok received
  unfolding receive received
  receive_lem =
      rw
        (
          p.contents,
          memcpy-append pending p.spare bytes s.used_receive_buffer (length bytes) p.used refl
              (omega (arith, p.full_size, ap length p.contents, length-append pending p.spare)),
        )
        (ground (arith, p.used))

  pub received-Pends : Pends received read_so_far
  unfolding received
  received-Pends = record {
    spare = drop (length bytes) p.spare;
    contents = sym (append_assoc pending bytes (drop (length bytes) p.spare));
    full_size = omega (
      arith,
      p.full_size,
      ap length p.contents,
      length-append pending p.spare,
      length-append pending (bytes ++ drop (length bytes) p.spare),
      length-append bytes (drop (length bytes) p.spare),
      length-drop (length bytes) p.spare,
    );
    used = sym (length-append pending bytes);
  }

  pub received-ep : received.ep ≡ s.ep
  unfolding received
  received-ep = refl

-- What is ended is sent, and what is not ended moves to the front of the buffer.
module _ (s : Server) (bytes : List ℕ) (p : Pends s bytes) where
  abbrev left_over : List ℕ
  left_over = unended [] bytes

  abbrev front : List ℕ
  front = (ended_part [] bytes).0

  splits : s.receive_buffer ≡ front ++ (left_over ++ p.spare)
  splits =
      p.contents
      ∙ ap (λ t. t ++ p.spare) (ended_part [] bytes).1
      ∙ append_assoc front left_over p.spare

  length-bytes : length bytes ≡ length front + length left_over
  length-bytes = ap length (ended_part [] bytes).1 ∙ length-append front left_over

  bytes-le : length bytes ≤ server_recv_max
  bytes-le = omega (arith, p.full_size, ap length p.contents, length-append bytes p.spare)

  processed-eq : length bytes - length left_over ≡ length front
  processed-eq = omega (arith, length-bytes)

  processed :
      server_process s.used_receive_buffer s.receive_buffer
      ≡ ok (all_writes (messages [] bytes), length front)
  processed =
      rw (p.used, p.contents)
        (server_process_lem bytes p.spare (omega (arith, bytes-le))
          ∙ ap (λ (n : ℕ). ok (all_writes (messages [] bytes), n)) processed-eq)

  moved :
      memmove (length front) (s.used_receive_buffer - length front) s.receive_buffer
      ≡ ok (left_over ++ drop (length left_over) s.receive_buffer)
  moved = rw splits (
      memmove-append front left_over p.spare (length front) (s.used_receive_buffer - length front)
        refl (omega (arith, p.used, length-bytes))
      ∙ ap (λ (n : ℕ). ok (left_over ++ drop n (front ++ (left_over ++ p.spare))))
          (omega (arith, p.used, length-bytes)))

  -- A server with `bytes` in its buffer sends the frames of the messages that these end, in order,
  -- and then has what they leave unended at the front of its buffer; the end point stays the same.
  pub process_received-Pends :
      (s' : Server) × (process_received s ≡ ok (goes_on (all_writes (messages [] bytes)) s'))
      × Pends s' left_over
      × (s'.ep ≡ s.ep)
  unfolding process_received
  process_received-Pends = elim (Bool-cases (length front == 0)) [
    | inl z ↦ (
      record s { used_receive_buffer = s.used_receive_buffer - length front },
      rw (processed, z),
      record {
        spare = p.spare;
        contents =
            splits ∙ ap (λ t. t ++ (left_over ++ p.spare)) (length-zero front ((==_iff _ 0).0 z));
        full_size = p.full_size;
        used = omega (arith, p.used, length-bytes);
      },
      refl,
    )
    | inr nz ↦ (
      record s {
        receive_buffer = left_over ++ drop (length left_over) s.receive_buffer;
        used_receive_buffer = s.used_receive_buffer - length front;
      },
      rw (processed, nz, moved),
      record {
        spare = drop (length left_over) s.receive_buffer;
        contents = refl;
        full_size = omega (
          arith,
          length-append left_over (drop (length left_over) s.receive_buffer),
          length-drop (length left_over) s.receive_buffer,
          p.full_size,
          length-bytes,
          bytes-le,
        );
        used = omega (arith, p.used, length-bytes);
      },
      refl,
    )
  ]
