-- ===== src/Notify/Events.antt =====
-- notify_poll of notify.c hands over the events that the system has written.
use craftsman_console.Base.{
  ℕ, suc, ◌≤◌, ◌≡◌, ◌⊎◌, inl, inr, refl, ap, ◌∙◌, true, false, List, [], ◌∷◌, ◌++◌, arith, length,
  length-append, length-drop, Bool-cases, drop, memcpy, memcpy-append, ok, ◌>>=◌,
}
use craftsman_console.Network.{PollFlags, is_flagged}
use craftsman_console.Server.{ReadResult, read_error, read_bytes}
use craftsman_console.Notify.{Watch, Event, walk_events, poll_watches, happened, notify_poll}
use craftsman_console.Notify.Walk.{Report, encode_events, InRange, delivered, walk_events-encode}

-- What poll_watches comes to where one watch is readable.
module _ (flags : PollFlags) (revents : ℕ → ℕ) (reads : ℕ → ReadResult) where
  -- What read answers for each watch: the events of a list where the watch is readable.
  abbrev pub Answers : ℕ → List (List Report) → Type 0
  Answers i [] = Unit
  Answers i ([] ∷ watches) =
      ((is_flagged (revents i) flags.poll_in ≡ false) ⊎ (reads i ≡ read_error true))
      × Answers (suc i) watches
  Answers i ((r ∷ rs) ∷ watches) =
      (is_flagged (revents i) flags.poll_in ≡ true)
      × (reads i ≡ read_bytes (encode_events (r ∷ rs)))
      × InRange (r ∷ rs)
      × (length (encode_events (r ∷ rs)) ≤ 4096)
      × Answers (suc i) watches

  -- Each watch's events, with what stands behind them in the buffer.
  pub data Delivers : ℕ → List (List Report) → List Event → Type 0 where
    none_left : {i : ℕ} → Delivers i [] []
    no_events :
        {i : ℕ} {watches : List (List Report)} {es : List Event}
        → Delivers (suc i) watches es
        → Delivers i ([] ∷ watches) es
    some_events :
        {i : ℕ} {r : Report} {rs : List Report} {watches : List (List Report)} {es : List Event}
        (tail : List ℕ)
        → Delivers (suc i) watches es
        → Delivers i ((r ∷ rs) ∷ watches) (delivered i (r ∷ rs) tail ++ es)

  abbrev pub Delivered : ℕ → List (List Report) → Watch → Type 0
  Delivered i watches w =
      (es : List Event) × (w' : Watch) × (poll_watches flags revents reads (length watches) i w
        ≡ ok (true, es, w'))
      × Delivers i watches es
      × (w'.watch_error ≡ 0)
      × (length w'.buf ≡ length w.buf)

  poll_one :
      (left i : ℕ) (w last : Watch) (bytes filled : List ℕ) (events later : List Event)
      → is_flagged (revents i) flags.poll_in ≡ true
      → reads i ≡ read_bytes bytes
      → memcpy w.buf 0 (length bytes) bytes ≡ ok filled
      → walk_events (length bytes) i filled (length bytes) ≡ ok events
      → poll_watches flags revents reads left (suc i) (record w { buf = filled })
        ≡ ok (true, later, last)
      → poll_watches flags revents reads (suc left) i w ≡ ok (true, events ++ later, last)
  unfolding poll_watches
  poll_one left i w last bytes filled events later readable read copied walked rest =
      rw (poll_watches, readable, read, copied, ◌>>=◌) (rw (walked, ◌>>=◌) (rw (rest, ◌>>=◌) refl))

  poll_watches-Delivered :
      (i : ℕ) (watches : List (List Report)) (w : Watch)
      → length w.buf ≡ 4096
      → Answers i watches
      → Delivered i watches w
  unfolding poll_watches
  poll_watches-Delivered i [] w b h =
      ([], record w { watch_error = 0 }, refl, none_left, refl, refl)
  poll_watches-Delivered i ([] ∷ watches) w b (quiet, h) =
      let (es, w', e, d, n, k) = poll_watches-Delivered (suc i) watches w b h in
      elim quiet [
        | inl not_in ↦ (es, w', rw (poll_watches, not_in) e, no_events d, n, k)
        | inr again ↦ elim (Bool-cases (is_flagged (revents i) flags.poll_in)) [
          | inl marked ↦ (es, w', rw (poll_watches, marked, again) e, no_events d, n, k)
          | inr unmarked ↦ (es, w', rw (poll_watches, unmarked) e, no_events d, n, k)
        ]
      ]
  poll_watches-Delivered i ((r ∷ rs) ∷ watches) w b (readable, read, range, small, h) =
      let bytes = encode_events (r ∷ rs) in
      let tail = drop (length bytes) w.buf in
      let filled =
        memcpy-append [] w.buf bytes 0 (length bytes) refl refl (omega (arith, small, b)) in
      let walked =
        walk_events-encode (r ∷ rs) i (length bytes) (length bytes) tail range refl (omega arith) in
      let (es, w', e, d, n, k) =
        poll_watches-Delivered (suc i) watches (record w { buf = bytes ++ tail })
          (omega (arith, small, b, length-append bytes tail, length-drop (length bytes) w.buf)) h in
      (
        delivered i (r ∷ rs) tail ++ es,
        w',
        poll_one (length watches) i w w' bytes (bytes ++ tail) (delivered i (r ∷ rs) tail) es
            readable read filled walked e,
        some_events tail d,
        n,
        k ∙ omega (arith, small, b, length-append bytes tail, length-drop (length bytes) w.buf),
      )

-- Where each watch that poll marks has events of the system to read, which fit the buffer, or nothing
-- yet, the call returns true: the handler is called with each event, in order and watch by watch, with
-- its numbers and its name, and no error is noted.
pub notify_poll-events :
    (flags : PollFlags) (revents : ℕ → ℕ) (reads : ℕ → ReadResult) (w : Watch)
    (watches : List (List Report))
    → length w.buf ≡ 4096
    → w.nfds ≡ length watches
    → Answers flags revents reads 0 watches
    → (es : List Event) × (w' : Watch) × (notify_poll flags (happened revents) reads w
        ≡ ok (true, es, w'))
      × Delivers flags revents reads 0 watches es
      × (w'.watch_error ≡ 0)
      × (length w'.buf ≡ 4096)
unfolding notify_poll
notify_poll-events flags revents reads w watches b n h =
    let (es, w', e, d, none_noted, k) =
      poll_watches-Delivered flags revents reads 0 watches w b h in
    (es, w', ap (λ k. poll_watches flags revents reads k 0 w) n ∙ e, d, none_noted, k ∙ b)
