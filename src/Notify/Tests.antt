-- ===== src/Notify/Tests.antt =====
-- The theorem on notify.c at a concrete watch.
use craftsman_console.Base.{
  ℕ, ◌≡◌, refl, inl, true, List, [], ◌∷◌, suc, some, arith, length, length-replicate, zero,
  replicate, ok,
}
use craftsman_console.Network.{linux_flags}
use craftsman_console.Server.{ReadResult, read_bytes}
use craftsman_console.Notify.{Watch, Event, happened, notify_poll}
use craftsman_console.Notify.Walk.{Report, encode_events}
use craftsman_console.Notify.Events.{Answers, Delivers, notify_poll-events}

-- Two watches, and two files that are closed in the second.
abbrev two_watches : Watch
two_watches = record {
  nfds = 2;
  fds = some 4 ∷ some 5 ∷ [];
  wd = some 1 ∷ some 1 ∷ [];
  watch_error = 0;
  buf = replicate 4096 0;
}

abbrev closed : List Report
closed =
    (record { wd = 1; mask = 8; cookie = 0; name = b'f' ∷ b'.' ∷ b'o' ∷ 0 ∷ [] })
    ∷ (record { wd = 1; mask = 8; cookie = 0; name = b'g' ∷ 0 ∷ 0 ∷ 0 ∷ [] })
    ∷ []

abbrev marks : ℕ → ℕ
marks zero = 0
marks (suc i) = 1

abbrev closed_reads : ℕ → ReadResult
closed_reads i = read_bytes (encode_events closed)

closed-Answers : Answers linux_flags marks closed_reads 0 ([] ∷ closed ∷ [])
closed-Answers = (
  inl refl,
  (
    refl,
    refl,
    (
      omega arith,
      omega arith,
      omega arith,
      omega arith,
      (omega arith, omega arith, omega arith, omega arith, tt),
    ),
    omega arith,
    tt,
  ),
)

poll_closed :
    (es : List Event) × (w' : Watch) × (notify_poll linux_flags
        (happened marks)
        closed_reads
        two_watches
      ≡ ok (true, es, w'))
    × Delivers linux_flags marks closed_reads 0 ([] ∷ closed ∷ []) es
    × (w'.watch_error ≡ 0)
    × (length w'.buf ≡ 4096)
poll_closed =
    notify_poll-events linux_flags marks closed_reads two_watches ([] ∷ closed ∷ [])
      (length-replicate 4096 zero) refl closed-Answers
