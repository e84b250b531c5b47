-- ===== src/Server/Routine.antt =====
-- The loop of network_server.c's server_routine: what it sends for a stream, however that is cut up.
use craftsman_console.Base.{
  ℕ, zero, suc, ◌+◌, ◌≤◌, ◌<◌, ◌≡◌, refl, ap, sym, ◌∙◌, true, false, List, [], ◌∷◌, ◌++◌, arith,
  length, flatten, get_elem?-some, get_elem?-none, IsText, ok, fault, ◌>>=◌, Bool-cases, inl, inr,
  ltb, ltb→lt,
}
use craftsman_console.Network.{PollFlags, Polled, EndPoint, network_poll, is_flagged}
use craftsman_console.Server.{
  Server, goes_on, ReadResult, read_bytes, read_error, receive, process_received, server_recv_max,
  server_message, process_from, server_process, server_halt, server_round, server_routine,
}
use craftsman_console.Server.Framing.{messages, unended, writes, all_writes}
use craftsman_console.Server.Stream.{
  Pends, messages-append, messages-pending, unended-IsText, received, receive_lem, received-Pends,
  received-ep, process_received-Pends,
}

-- poll's answer says that there is something to read, and nothing else.
pub record IsReadable (flags : PollFlags) (revents : ℕ) : Type 0 where
  pub valid : is_flagged revents flags.poll_nval ≡ false
  pub readable : is_flagged revents flags.poll_in ≡ true
  pub no_error : is_flagged revents flags.poll_err ≡ false
  pub no_hangup : is_flagged revents flags.poll_hup ≡ false

-- Each piece fits what the pieces before it leave of the buffer.
abbrev pub PiecesFit : List ℕ → List (List ℕ) → Type 0
PiecesFit pending [] = Unit
PiecesFit pending (piece ∷ pieces) =
    (length pending + length piece ≤ server_recv_max) × PiecesFit (unended pending piece) pieces

all_writes-append : (cs ds : List (List ℕ)) → all_writes (cs ++ ds) ≡ all_writes cs ++ all_writes ds
all_writes-append [] ds = refl
all_writes-append (c ∷ cs) ds = ap (◌++◌ (writes c)) (all_writes-append cs ds)

module _ (flags : PollFlags) (revents : ℕ) (r : IsReadable flags revents) where
  abbrev pub polled_end : Server → EndPoint
  polled_end s = (network_poll flags (Polled.events revents) s.ep).1

  polled_end-connected : (s : Server) → (polled_end s).disconnected ≡ s.ep.disconnected
  unfolding network_poll
  polled_end-connected s = rw r.no_error

  server_round-reads :
      (s : Server) (answer : ReadResult)
      → server_halt answer false ≡ false
      → server_round flags (Polled.events revents) answer s
        ≡ (receive (record s { ep = polled_end s }) answer >>= process_received)
  unfolding server_round network_poll
  server_round-reads s answer goes = rw (r.valid, r.readable, r.no_hangup, goes)

  server_halt-bytes : (piece : List ℕ) → server_halt (read_bytes piece) false ≡ false
  unfolding server_halt
  server_halt-bytes [] = refl
  server_halt-bytes (_ ∷ _) = refl

  -- One round sends the messages that the piece ends, and keeps what it leaves unended.
  server_round-Pends :
      (s : Server) (pending piece : List ℕ)
      → Pends s pending
      → IsText pending
      → length pending + length piece ≤ server_recv_max
      → (s' : Server) × (server_round flags (Polled.events revents) (read_bytes piece) s
          ≡ ok (goes_on (all_writes (messages pending piece)) s'))
        × Pends s' (unended pending piece)
        × (s'.ep.disconnected ≡ s.ep.disconnected)
  server_round-Pends s pending piece p t fits =
      let s₁ = record s { ep = polled_end s } in
      let p₁ : Pends s₁ pending = record {
        spare = p.spare;
        contents = p.contents;
        full_size = p.full_size;
        used = p.used;
      } in
      let (m, u) = messages-pending pending piece t in
      let (s', sent, p', same) =
        process_received-Pends (received s₁ pending piece p₁ t fits) (pending ++ piece)
          (received-Pends s₁ pending piece p₁ t fits) in
      (
        s',
        server_round-reads s (read_bytes piece) (server_halt-bytes piece)
            ∙ ap (λ o. o >>= process_received) (receive_lem s₁ pending piece p₁ t fits)
            ∙ rw m at sent,
        rw u at p',
        ap (λ (e : EndPoint). e.disconnected) (same ∙ received-ep s₁ pending piece p₁ t fits)
            ∙ polled_end-connected s,
      )

  -- The pieces of a stream, each read when poll says that there is something to read.
  abbrev pub reads : List (List ℕ) → List (Polled × ReadResult)
  reads [] = []
  reads (piece ∷ pieces) = (Polled.events revents, read_bytes piece) ∷ reads pieces

  server_routine-next :
      (s s' : Server) (piece : List ℕ) (pieces sent later : List (List ℕ)) (end : Server)
      → s.ep.disconnected ≡ false
      → server_round flags (Polled.events revents) (read_bytes piece) s ≡ ok (goes_on sent s')
      → server_routine flags (reads pieces) s' ≡ ok (later, end)
      → server_routine flags (reads (piece ∷ pieces)) s ≡ ok (sent ++ later, end)
  unfolding server_routine
  server_routine-next s s' piece pieces sent later end up round rest = simp (up, round, rest)

  -- A connected server that has `pending` unended, a string, sends, for the pieces of a stream as
  -- they come, the frames of the messages that `pending` and the whole stream end, in order, and of
  -- nothing else; the unended rest is in its buffer. How the stream is cut up makes no difference,
  -- as long as each piece fits what is left of the buffer and poll announces each as readable and
  -- nothing else.
  pub server_routine-stream :
      (pieces : List (List ℕ)) (s : Server) (pending : List ℕ)
      → Pends s pending
      → IsText pending
      → s.ep.disconnected ≡ false
      → PiecesFit pending pieces
      → (s' : Server) × (server_routine flags (reads pieces) s
          ≡ ok (all_writes (messages pending (flatten pieces)), s'))
        × Pends s' (unended pending (flatten pieces))
  server_routine-stream [] s pending p t up fits = (s, unfold server_routine in refl, p)
  server_routine-stream (piece ∷ pieces) s pending p t up fits =
      let (s₁, round, p₁, same) = server_round-Pends s pending piece p t fits.0 in
      let (s₂, later, p₂) =
        server_routine-stream pieces s₁ (unended pending piece) p₁ (unended-IsText pending piece t)
          (same ∙ up) fits.1 in
      let (m, u) = messages-append pending piece (flatten pieces) in
      (
        s₂,
        server_routine-next s s₁ piece pieces _ _ s₂ up round later
            ∙ ap (λ w. ok (w, s₂))
                (sym (
                  ap all_writes m
                  ∙ all_writes-append (messages pending piece)
                      (messages (unended pending piece) (flatten pieces)))),
        rw u p₂,
      )

-- Past the end of the buffer the loop of `server_process` runs into undefined behaviour.
process_from_outside :
    (left i start : ℕ) (bytes : List ℕ)
    → i ≤ length bytes
    → length bytes < i + left
    → process_from left i start bytes ≡ fault
unfolding process_from server_message
process_from_outside zero i start bytes h k = absurd (omega arith)
process_from_outside (suc left) i start bytes h k = elim (Bool-cases (ltb i (length bytes))) [
  | inl inside ↦
      let (c, e) = get_elem?-some bytes i (ltb→lt _ _ inside) in
      ground (
        arith,
        process_from_outside left (i + 1) (i + 1) bytes,
        process_from_outside left (i + 1) start bytes,
      )
  | inr at_end ↦ rw (get_elem?-none bytes i (ground arith))
]

process_received-outside :
    (s : Server) → length s.receive_buffer < s.used_receive_buffer → process_received s ≡ fault
unfolding process_received server_process
process_received-outside s h =
    rw (process_from_outside s.used_receive_buffer 0 0 s.receive_buffer (omega arith) (omega arith))

-- A read that would block, though poll said that there is something to read, takes one from the
-- count of bytes in the buffer: with an empty buffer the count wraps, and the server reads past the
-- end of its buffer.
pub server_round_would_block :
    (flags : PollFlags) (revents : ℕ) (s : Server)
    → IsReadable flags revents
    → Pends s []
    → server_round flags (Polled.events revents) (read_error true) s ≡ fault
unfolding server_round
server_round_would_block flags revents s r p =
    server_round-reads flags revents r s (read_error true) (unfold server_halt in refl)
    ∙ process_received-outside _ (omega (arith, p.full_size, p.used))
