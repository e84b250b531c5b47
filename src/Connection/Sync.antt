-- ===== src/Connection/Sync.antt =====
-- connection_sync of connection.c: what a turn sends, and the status it returns.
use craftsman_console.Base.{
  ℕ, zero, suc, ◌+◌, ◌-◌, ◌^◌, ◌<◌, ◌≡◌, refl, ap, sym, subst, ◌∙◌, Bool, true, false, not, ◌||◌,
  List, [], ◌∷◌, ◌++◌, append_assoc, append-nil, Option, none, some, arith, ltb, ◌==◌, length,
  flatten, Outcome, ok, ◌>>=◌,
}
use craftsman_console.Base.Int.{ℤ, pos, negsuc}
use craftsman_console.Network.{PollFlags, Polled}
use craftsman_console.Record.{Allocator, Record, RecordRw, Offset, record_read, advance}
use craftsman_console.Record.Log.{encode, Holds}
use craftsman_console.Record.Read.{AllText, Stands, record_read-next}
use craftsman_console.Connection.{Connection, connection_io, connection_processing}

-- the codes that are returned
pub data SyncStatus : Type 0 where
  conn_ok conn_term conn_change conn_corrupt : SyncStatus

-- `written != cmd_len`, for an answer of `network_write`
abbrev pub is_short : ℤ → ℕ → Bool
is_short (pos n) len = not (n == len)
is_short (negsuc n) len = true

-- The loop over the commands to send, `left` before the target; `written` is what network_write answers
-- for the command of that number. The first part is false where the record has no more commands; the
-- second is what is handed to network_write.
unfoldable pub send_commands :
    ℕ
    → (ℕ → ℤ)
    → Record
    → Offset
    → Connection
    → Outcome (Bool × List (List ℕ) × Offset × Connection)
send_commands zero written rec off c = ok (true, [], off, c)
send_commands (suc left) written rec off c = record_read rec off >>= λ (read, off'). elim read [
  | none ↦ ok (false, [], off', c)
  | some cmd ↦
      send_commands left written rec off' (record c {
        buffering = c.buffering || is_short (written off.command_count) (length cmd + 1);
      })
      >>= λ (whole, later, end, c'). ok (whole, (cmd ++ 0 ∷ []) ∷ later, end, c')
]

-- What a turn comes to.
pub record Synced : Type 0 where
  pub status : SyncStatus
  pub sent : List (List ℕ)
  pub connection : Connection
  pub input : RecordRw
  pub game_record : List RecordRw

unfoldable pub connection_sync :
    PollFlags
    → Polled
    → Option (List ℕ)
    → (ℕ → ℤ)
    → Allocator
    → Bool
    → ℕ
    → Connection
    → RecordRw
    → List RecordRw
    → Outcome Synced
unfolding connection_io connection_processing send_commands
connection_sync flags polled answer written m signed target_frame c input game_record =
    connection_io flags polled answer c >>= λ (up, c₁). (elim up [
      | false ↦ ok (ended conn_term c₁ game_record)
      | true ↦ connection_processing m signed c₁ game_record >>= λ (same, c₂, game_record').
          (elim same [
            | false ↦ ok (ended conn_change c₂ game_record')
            | true ↦ send c₂ game_record' input.rec
          ])
    ])
  where
    ended : SyncStatus → Connection → List RecordRw → Synced
    ended status c' game_record' = record {
      status = status;
      sent = [];
      connection = c';
      input = input;
      game_record = game_record';
    }

    finish : List RecordRw → Bool × List (List ℕ) × Offset × Connection → Synced
    finish game_record' (whole, sent, off, c') = record {
      status = elim whole [ true ↦ conn_ok | false ↦ conn_corrupt ];
      sent = sent;
      connection = c';
      input = record input { read_offset = off };
      game_record = game_record';
    }

    send : Connection → List RecordRw → Option Record → Outcome Synced
    send c' game_record' none = elim (ltb input.read_offset.command_count target_frame) [
      | true ↦ Outcome.fault
      | false ↦ ok (ended conn_ok c' game_record')
    ]
    send c' game_record' (some rec) =
        send_commands (target_frame - input.read_offset.command_count) written rec input.read_offset
          c'
        >>= λ out. ok (finish game_record' out)

-- What is handed to network_write for a list of commands.
abbrev pub terminated : List (List ℕ) → List (List ℕ)
terminated [] = []
terminated (c ∷ cs) = (c ++ 0 ∷ []) ∷ terminated cs

pub flatten-terminated : (cmds : List (List ℕ)) → flatten (terminated cmds) ≡ encode cmds
flatten-terminated [] = refl
flatten-terminated (c ∷ cs) =
    append_assoc c (0 ∷ []) (flatten (terminated cs)) ∙ ap (λ t. c ++ 0 ∷ t) (flatten-terminated cs)

-- From a record that holds the commands wanted, which are strings, each is handed to network_write
-- once, in order, with its terminator; the reader then stands behind them, and the loop says that
-- none was missing. The answers of network_write change nothing but the note that something was not
-- written whole. The bytes used and the commands read stay below 2 ^ 32.
pub send_commands-all :
    (cmds : List (List ℕ)) (written : ℕ → ℤ) (rec : Record) (woff off : Offset)
    (past later : List (List ℕ)) (c : Connection)
    → Holds rec woff (past ++ (cmds ++ later))
    → Stands off past
    → AllText cmds
    → rec.used_bytes < 2 ^ 32
    → off.command_count + length cmds < 2 ^ 32
    → (end : Offset) × (c' : Connection) × (send_commands (length cmds) written rec off c
        ≡ ok (true, terminated cmds, end, c'))
      × Stands end (past ++ cmds)
      × (c' ≡ record c { buffering = c'.buffering })
unfolding send_commands
send_commands-all [] written rec woff off past later c h s t small few =
    (off, c, refl, subst (Stands off) (sym (append-nil past)) s, refl)
send_commands-all (cmd ∷ cmds) written rec woff off past later c h s t small few =
    let (read, played, can, peeked, s') =
      record_read-next rec woff off past cmd (cmds ++ later) h s t.0 small (omega arith) in
    let (end, c', sent, at_end, same) =
      send_commands-all cmds written rec woff (advance off (length cmd)) (past ++ cmd ∷ []) later
        (record c {
          buffering = c.buffering || is_short (written off.command_count) (length cmd + 1);
        })
        (subst (Holds rec woff) (sym (append_assoc past (cmd ∷ []) (cmds ++ later))) h) s' t.1 small
        (omega arith) in
    (
      end,
      c',
      rw read (rw sent),
      subst (Stands end) (append_assoc past (cmd ∷ []) cmds) at_end,
      same,
    )
