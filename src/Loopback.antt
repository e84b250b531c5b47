-- ===== src/Loopback.antt =====
-- A single player's commands, from network_server.c's thread back to connection.c's record: connection.c
-- writes each command with its terminator, the server sends it back in a frame, and
-- connection_processing appends it to player 0's record.
pub mod Tests
use craftsman_console.Base.{
  ℕ, zero, suc, ◌+◌, ◌^◌, ◌≤◌, ◌<◌, ◌≡◌, refl, ap, sym, subst, ◌∙◌, inl, Bool, true, false, List,
  [], ◌∷◌, ◌++◌, map, append_assoc, append-nil, arith, ◌==◌, ==_refl, ==_iff, if◌then◌else◌, length,
  flatten, flatten-append, IsText, IsText-snoc, ne→==, Outcome, ok, get_elem?, some,
}
use craftsman_console.Network.{PollFlags}
use craftsman_console.Record.{Allocator, RecordRw}
use craftsman_console.Record.Log.{encode}
use craftsman_console.Record.Read.{AllText}
use craftsman_console.Record.Growth.{IsPlentiful}
use craftsman_console.Server.{Server, server_routine, server_recv_max}
use craftsman_console.Server.Framing.{messages, unended, writes, all_writes}
use craftsman_console.Server.Stream.{Pends}
use craftsman_console.Server.Routine.{IsReadable, PiecesFit, reads, server_routine-stream}
use craftsman_console.Connection.{Connection, connection_processing}
use craftsman_console.Connection.Frames.{frame, Buffers}
use craftsman_console.Connection.Delivery.{
  frames, Logs, deliver_all, Recorded, Deliverable, HaveRoom, IsRecorded,
}
use craftsman_console.Connection.Processing.{connection_processing-frames}

-- the messages of player 0
abbrev pub own : List (List ℕ) → List (ℕ × List ℕ)
own [] = []
own (c ∷ cs) = (0, c) ∷ own cs

-- A terminated string ends with the string.
messages-string :
    (pending c rest : List ℕ)
    → IsText c
    → (messages pending (c ++ 0 ∷ rest) ≡ (pending ++ c) ∷ messages [] rest)
      × (unended pending (c ++ 0 ∷ rest) ≡ unended [] rest)
messages-string pending [] rest t =
    (ap (λ p. p ∷ messages [] rest) (sym (append-nil pending)), refl)
messages-string pending (d ∷ c) rest t =
    ground (arith, messages-string (pending ++ d ∷ []) c rest t.1, append_assoc pending (d ∷ []) c)

-- The stream of a list of commands ends just these commands, and nothing is left.
pub messages-encode :
    (cmds : List (List ℕ))
    → AllText cmds
    → (messages [] (encode cmds) ≡ cmds) × (unended [] (encode cmds) ≡ [])
messages-encode [] t = (refl, refl)
messages-encode (c ∷ cs) t =
    let (m, u) = messages-string [] c (encode cs) t.0 in
    let (ms, us) = messages-encode cs t.1 in (m ∙ ap (λ l. c ∷ l) ms, u ∙ us)

flatten-writes : (c : List ℕ) → flatten (writes c) ≡ frame 0 c
flatten-writes c = simp (append-nil)

-- What the server sends for the commands is the frames that the client reads.
pub flatten-all_writes : (cmds : List (List ℕ)) → flatten (all_writes cmds) ≡ frames (own cmds)
flatten-all_writes [] = refl
flatten-all_writes (c ∷ cs) =
    flatten-append (writes c) (all_writes cs)
    ∙ ap (λ t. flatten (writes c) ++ t) (flatten-all_writes cs)
    ∙ ap (λ t. t ++ frames (own cs)) (flatten-writes c)

own-Deliverable :
    (present : ℕ → Bool) (cmds : List (List ℕ))
    → present 0 ≡ true
    → AllText cmds
    → Deliverable present (own cmds)
own-Deliverable present [] here t = tt
own-Deliverable present (c ∷ cs) here t =
    (omega arith, here, t.0, own-Deliverable present cs here t.1)

deliver_all-own :
    (cmds : List (List ℕ)) (logs : Logs) → deliver_all (own cmds) logs 0 ≡ logs 0 ++ cmds
deliver_all-own [] logs = sym (append-nil (logs 0))
deliver_all-own (c ∷ cs) logs = deliver_all-own cs _ ∙ append_assoc (logs 0) (c ∷ []) cs

-- A client's commands, which are strings and reach a connected server with an empty buffer in any
-- pieces that fit that buffer, each announced by poll as readable and nothing else, are sent back as
-- frames. Where the client has these bytes in its buffer and a record for player 0, one call of
-- `connection_processing` appends the commands to that record, in order and once. Neither buffer has
-- anything left. The allocator does not run out, and no record gets to 2 ^ 28 bytes.
pub loopback :
    (flags : PollFlags) (revents : ℕ) (s : Server) (pieces cmds : List (List ℕ)) (m : Allocator)
    (signed : Bool) (present : ℕ → Bool) (c : Connection) (recording : List RecordRw) (logs : Logs)
    → (r : IsReadable flags revents) → Pends s []
    → s.ep.disconnected ≡ false
    → PiecesFit [] pieces
    → flatten pieces ≡ encode cmds
    → AllText cmds
    → IsPlentiful m
    → present 0 ≡ true
    → Recorded present recording logs
    → Buffers c (frames (own cmds))
    → HaveRoom logs (length (frames (own cmds)))
    → (sent : List (List ℕ)) × (s' : Server) × (c' : Connection) × (recording' : List RecordRw)
      × (entry : RecordRw) × (server_routine flags (reads flags revents r pieces) s ≡ ok (sent, s'))
      × Pends s' []
      × (flatten sent ≡ frames (own cmds))
      × (connection_processing m signed c recording ≡ ok (true, c', recording'))
      × Buffers c' []
      × (get_elem? recording' 0 ≡ some entry)
      × IsRecorded entry (logs 0 ++ cmds)
loopback flags revents s pieces cmds m signed present c recording logs r p up fits stream t plenty
      here recorded b room =
    let (s', served, p') = server_routine-stream flags revents r pieces s [] p tt up fits in
    let (ended, left) = messages-encode cmds t in
    let whole = sym (append-nil (frames (own cmds))) in
    let (c', recording', processed, b', recorded') =
      connection_processing-frames m signed present c recording logs (own cmds) [] plenty
        (subst (Buffers c) whole b) (inl (omega arith)) (own-Deliverable present cmds here t)
        recorded (subst (λ l. HaveRoom logs (length l)) whole room) in
    let (entry, at_0, held) = recorded' 0 here in
    (
      all_writes cmds,
      s',
      c',
      recording',
      entry,
      served ∙ ap (λ w. ok (w, s')) (ap all_writes (ap (messages []) stream ∙ ended)),
      subst (Pends s') (ap (unended []) stream ∙ left) p',
      flatten-all_writes cmds,
      processed,
      b',
      at_0,
      subst (IsRecorded entry) (deliver_all-own cmds logs) held,
    )
