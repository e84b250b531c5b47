-- ===== src/Clock.antt =====
-- platform_clock.c: the pace of the frames, on the processor's time stamp counter. What the counter
-- reads is an argument of each operation.
pub mod Pace
pub mod Lock
pub mod Samples
pub mod Sorting
pub mod Median
pub mod Tests
use craftsman_console.Base.{
  ℕ, ◌+◌, ◌-◌, ◌*◌, ◌/◌, ◌%◌, ◌^◌, Bool, true, false, ltb, leb, if◌then◌else◌, Outcome, ok, guard,
  ◌>>=◌, ◌>>◌,
}

-- `TscClock_t`
pub record TscClock : Type 0 where
  pub median_tsc_per_usec : ℕ
  pub median_usec_per_tsc : ℕ
  pub tsc_step : ℕ
  pub jerk : ℕ
  pub tsc_clock : ℕ
  pub frame_to_frame_tsc : ℕ

-- a difference of two `uint64_t`
abbrev pub sub_u64 : ℕ → ℕ → ℕ
sub_u64 a b = (a + 2 ^ 64 - b) % 2 ^ 64

unfoldable pub tscdelta_to_usec : TscClock → ℕ → ℕ
tscdelta_to_usec clock delta_tsc = delta_tsc * clock.median_usec_per_tsc % 2 ^ 64 / 2 ^ 33

-- `tsc_per_usec` is what `__tsc_per_usec` measures, and is divided by; `now` is the counter.
unfoldable pub clock_init : ℕ → ℕ → ℕ → Outcome TscClock
clock_init tsc_per_usec now frame_goal_usec =
    guard (ltb 0 tsc_per_usec)
    >> ok (record {
      median_tsc_per_usec = tsc_per_usec;
      median_usec_per_tsc = 2 ^ 33 / tsc_per_usec;
      tsc_step = frame_goal_usec * tsc_per_usec % 2 ^ 64;
      jerk = 0;
      tsc_clock = now;
      frame_to_frame_tsc = now;
    })

unfoldable pub clock_delta_usec : ℕ → TscClock → ℕ
unfolding tscdelta_to_usec
clock_delta_usec now clock = tscdelta_to_usec clock (sub_u64 now clock.frame_to_frame_tsc)

-- The value returned, `*optional_sleep_usec` after the call, and the clock.
unfoldable pub clock_sync : ℕ → ℕ → TscClock → Bool × ℕ × TscClock
unfolding tscdelta_to_usec
clock_sync tsc_now sleep_usec clock =
    let tsc_next = (clock.tsc_clock + clock.tsc_step) % 2 ^ 64 in
    if ltb (sub_u64 tsc_next tsc_now) clock.tsc_step
    then (false, tscdelta_to_usec clock (sub_u64 tsc_next tsc_now), clock)
    else if leb (sub_u64 tsc_now tsc_next) clock.tsc_step
    then (true, sleep_usec, record clock { tsc_clock = tsc_next; frame_to_frame_tsc = tsc_now })
    else if ltb clock.tsc_step (sub_u64 tsc_now tsc_next)
    then (
      true,
      sleep_usec,
      record clock {
        tsc_clock = tsc_now;
        jerk = (clock.jerk + 1) % 2 ^ 64;
        frame_to_frame_tsc = tsc_now;
      },
    )
    else (true, sleep_usec, record clock { frame_to_frame_tsc = tsc_now })
