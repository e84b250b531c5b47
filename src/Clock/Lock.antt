-- ===== src/Clock/Lock.antt =====
-- The lock around the measurement of platform_clock.c's `__tsc_per_usec`: a ticket that is drawn from
-- `lock_id`, and served by `running_thread`. A step is one access of a thread to one of the two, so
-- that the accesses of several threads come in any order.
pub mod Tickets
pub mod Fair
pub mod Exclusion
pub mod Tests
use craftsman_console.Base.{ℕ, ◌+◌, ◌%◌, ◌^◌, Bool, true, false, List, [], ◌∷◌, ◌==◌, if◌then◌else◌}

-- Where a thread is: it has read `lock_id` for its `++`; it waits for its ticket; it measures; it has
-- read `running_thread` for the `++` at the end.
pub data Phase : Type 0 where
  outside : Phase
  drawing : ℕ → Phase
  waiting : ℕ → Phase
  measuring : ℕ → Phase
  handing : ℕ → ℕ → Phase

pub record Lock : Type 0 where
  pub lock_id : ℕ
  pub running_thread : ℕ
  pub threads : ℕ → Phase

-- A function with another value at one place.
abbrev pub put {ℓ} : {A : Type ℓ} → ℕ → A → (ℕ → A) → ℕ → A
put i a f j = if i == j then a else f j

abbrev pub with_phase : ℕ → Phase → Lock → Lock
with_phase i phase l = record l { threads = put i phase l.threads }

-- The next access of a thread in some phase. A thread whose ticket is not served sleeps, and looks again.
unfoldable pub next_access : ℕ → Phase → Lock → Lock
next_access i outside l = with_phase i (drawing l.lock_id) l
next_access i (drawing n) l = with_phase i (waiting n) (record l { lock_id = (n + 1) % 2 ^ 64 })
next_access i (waiting n) l = if n == l.running_thread then with_phase i (measuring n) l else l
next_access i (measuring n) l = with_phase i (handing n l.running_thread) l
next_access i (handing n r) l =
    with_phase i outside (record l { running_thread = (r + 1) % 2 ^ 64 })

unfoldable pub step_thread : ℕ → Lock → Lock
unfolding next_access
step_thread i l = next_access i (l.threads i) l

-- The threads' steps, in the order of a schedule.
unfoldable pub run_schedule : List ℕ → Lock → Lock
unfolding step_thread
run_schedule [] l = l
run_schedule (i ∷ schedule) l = run_schedule schedule (step_thread i l)

abbrev pub unlocked : Lock
unlocked = record { lock_id = 0; running_thread = 0; threads = λ i. outside }
