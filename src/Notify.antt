-- ===== src/Notify.antt =====
-- notify.c: watches on paths, and the events that they report. The answers of the system calls are
-- arguments.
pub mod Walk
pub mod Events
pub mod Tests
use craftsman_console.Base.{
  ℕ, zero, suc, ◌+◌, ◌-◌, ◌*◌, ◌^◌, Bool, true, false, List, [], ◌∷◌, ◌++◌, Option, none, some,
  if◌then◌else◌, length, drop, get_or, memcpy, Outcome, ok, fault, ◌>>=◌,
}
use craftsman_console.Network.{PollFlags, is_flagged}
use craftsman_console.Server.{ReadResult, read_error, read_bytes}

-- The statics, with the buffer of `notify_poll`. The lists have the entries of the arrays that are set, and
-- a descriptor is `none` for -1.
pub record Watch : Type 0 where
  pub nfds : ℕ
  pub fds : List (Option ℕ)
  pub wd : List (Option ℕ)
  pub watch_error : ℕ
  pub buf : List ℕ

unfoldable pub notify_last_error : Watch → ℕ
notify_last_error w = w.watch_error

-- The loop of `notify_init`, on what inotify_init1 and inotify_add_watch answer for each path.
unfoldable pub watch_from : List (Option ℕ × Option ℕ) → Watch → Bool × Watch
watch_from [] w = (true, record w { watch_error = 0 })
watch_from ((none, added) ∷ answers) w =
    (false, record w { nfds = w.nfds + 1; fds = w.fds ++ none ∷ []; watch_error = 4 })
watch_from ((some fd, none) ∷ answers) w = (
  false,
  record w {
    nfds = w.nfds + 1;
    fds = w.fds ++ some fd ∷ [];
    wd = w.wd ++ none ∷ [];
    watch_error = 5;
  },
)
watch_from ((some fd, some added) ∷ answers) w =
    watch_from answers
      (record w { nfds = w.nfds + 1; fds = w.fds ++ some fd ∷ []; wd = w.wd ++ some added ∷ [] })

-- Whether the two calls of calloc give a block, and the answers for each path.
unfoldable pub notify_init : Bool → Bool → List (Option ℕ × Option ℕ) → Watch → Bool × Watch
unfolding watch_from
notify_init false more answers w = (false, record w { watch_error = 2 })
notify_init true false answers w = (false, record w { watch_error = 3 })
notify_init true true answers w = watch_from answers (record w { nfds = 0; fds = []; wd = [] })

-- `struct inotify_event`, at a pointer that is given to the handler with the index of the watch: what
-- stands at `name` is the rest of the buffer, of which `len` bytes are the event's.
pub record Event : Type 0 where
  pub idx : ℕ
  pub wd : ℕ
  pub mask : ℕ
  pub cookie : ℕ
  pub len : ℕ
  pub name : List ℕ

abbrev pub event_bytes : ℕ
event_bytes = 16

-- four bytes, the lowest first
abbrev pub load_u32 : ℕ → ℕ → ℕ → ℕ → ℕ
load_u32 a b c d = a + b * 2 ^ 8 + c * 2 ^ 16 + d * 2 ^ 24

unfoldable pub event_at : ℕ → List ℕ → Outcome Event
event_at idx
      (a₀ ∷ a₁ ∷ a₂ ∷ a₃ ∷ b₀ ∷ b₁ ∷ b₂ ∷ b₃ ∷ c₀ ∷ c₁ ∷ c₂ ∷ c₃ ∷ d₀ ∷ d₁ ∷ d₂ ∷ d₃ ∷ rest) =
    ok (record {
      idx = idx;
      wd = load_u32 a₀ a₁ a₂ a₃;
      mask = load_u32 b₀ b₁ b₂ b₃;
      cookie = load_u32 c₀ c₁ c₂ c₃;
      len = load_u32 d₀ d₁ d₂ d₃;
      name = rest;
    })
event_at idx _ = fault

-- The loop over the events, with `left` bytes before `eventEnd`. Each round takes 16 bytes at least.
unfoldable pub walk_events : ℕ → ℕ → List ℕ → ℕ → Outcome (List Event)
unfolding event_at
walk_events fuel idx event zero = ok []
walk_events zero idx event (suc left) = fault
walk_events (suc fuel) idx event (suc left) = event_at idx event >>= λ notify.
    walk_events fuel idx (drop (event_bytes + notify.len) event)
      (suc left - (event_bytes + notify.len))
    >>= λ later. ok (notify ∷ later)

-- The loop over the watches, `left` of them from `i` on: `revents` is what poll says of each, and
-- `reads` what read answers. The value returned, the events, and the state after the call.
unfoldable pub poll_watches :
    PollFlags → (ℕ → ℕ) → (ℕ → ReadResult) → ℕ → ℕ → Watch → Outcome (Bool × List Event × Watch)
unfolding walk_events
poll_watches flags revents reads zero i w = ok (true, [], record w { watch_error = 0 })
poll_watches flags revents reads (suc left) i w = elim (is_flagged (revents i) flags.poll_in) [
  | false ↦ poll_watches flags revents reads left (suc i) w
  | true ↦ elim (reads i) [
    | read_error false ↦ ok (false, [], record w { watch_error = 7 })
    | read_error true ↦ poll_watches flags revents reads left (suc i) w
    | read_bytes bytes ↦ memcpy w.buf 0 (length bytes) bytes >>= λ filled.
        walk_events (length bytes) i filled (length bytes) >>= λ events.
        poll_watches flags revents reads left (suc i) (record w { buf = filled })
        >>= λ (going, later, w'). ok (going, events ++ later, w')
  ]
]

-- What poll answers.
pub data Watched : Type 0 where
  interrupted failed : Watched
  happened : (ℕ → ℕ) → Watched

unfoldable pub notify_poll :
    PollFlags → Watched → (ℕ → ReadResult) → Watch → Outcome (Bool × List Event × Watch)
unfolding poll_watches
notify_poll flags interrupted reads w = ok (true, [], w)
notify_poll flags failed reads w = ok (false, [], record w { watch_error = 6 })
notify_poll flags (happened revents) reads w = poll_watches flags revents reads w.nfds 0 w

unfoldable pub notify_shutdown : Watch → Watch
notify_shutdown w = record w { nfds = 0; fds = []; wd = [] }
