-- ===== src/Clock/Pace.antt =====
-- When clock_sync of platform_clock.c lets a frame go, and where the clock then stands.
use craftsman_console.Base.{
  ℕ, ◌+◌, ◌-◌, ◌%◌, ◌^◌, ◌≤◌, ◌<◌, ◌≡◌, true, false, arith, Bool-cases, inl, inr, if◌then◌else◌,
  leb, lt→ltb, le→ltb,
}
use craftsman_console.Clock.{TscClock, sub_u64, tscdelta_to_usec, clock_sync}

-- the end of the frame that the clock is in
abbrev pub due : TscClock → ℕ
due clock = clock.tsc_clock + clock.tsc_step

le→leb : (a b : ℕ) → a ≤ b → leb a b ≡ true
le→leb a b h = ground arith

lt→leb : (a b : ℕ) → a < b → leb b a ≡ false
lt→leb a b h = ground arith

-- distances on the counter, across a wrap
sub_u64_left : (a d : ℕ) → d < 2 ^ 62 → d ≤ a → sub_u64 (a % 2 ^ 64) ((a - d) % 2 ^ 64) ≡ d
sub_u64_left a d h k = omega arith

sub_u64_behind : (a d : ℕ) → d < 2 ^ 62 → sub_u64 ((a + d) % 2 ^ 64) (a % 2 ^ 64) ≡ d
sub_u64_behind a d h = omega arith

sub_u64_ahead :
    (a d : ℕ) → d < 2 ^ 62 → 0 < d → sub_u64 (a % 2 ^ 64) ((a + d) % 2 ^ 64) ≡ 2 ^ 64 - d
sub_u64_ahead a d h k = omega arith

-- The three cases.
pub sync_cases :
    (clock : TscClock) (sleep_usec d : ℕ)
    → clock.tsc_clock < 2 ^ 64
    → clock.tsc_step < 2 ^ 62
    → d < 2 ^ 62
    → (d < clock.tsc_step
        → clock_sync ((due clock - d) % 2 ^ 64) sleep_usec clock
          ≡ (false, tscdelta_to_usec clock d, clock))
      × (d ≤ clock.tsc_step
          → 0 < d
          → clock_sync ((due clock + d) % 2 ^ 64) sleep_usec clock ≡ (
            true,
            sleep_usec,
            record clock {
              tsc_clock = due clock % 2 ^ 64;
              frame_to_frame_tsc = (due clock + d) % 2 ^ 64;
            },
          ))
      × (clock.tsc_step < d
          → clock_sync ((due clock + d) % 2 ^ 64) sleep_usec clock ≡ (
            true,
            sleep_usec,
            record clock {
              tsc_clock = (due clock + d) % 2 ^ 64;
              jerk = (clock.jerk + 1) % 2 ^ 64;
              frame_to_frame_tsc = (due clock + d) % 2 ^ 64;
            },
          ))
unfolding clock_sync
sync_cases clock sleep_usec d c s small = (
  λ early. rw (sub_u64_left (due clock) d small (omega arith), lt→ltb d clock.tsc_step early),
  λ on_time more. rw (
    sub_u64_ahead (due clock) d small more,
    sub_u64_behind (due clock) d small,
    le→ltb (2 ^ 64 - d) clock.tsc_step (omega arith),
    le→leb d clock.tsc_step on_time,
  ),
  λ late. rw (
    sub_u64_ahead (due clock) d small (omega arith),
    sub_u64_behind (due clock) d small,
    le→ltb (2 ^ 64 - d) clock.tsc_step (omega arith),
    lt→leb clock.tsc_step d late,
    lt→ltb clock.tsc_step d late,
  ),
)

-- The counter and the clock may both wrap; `e` is below a step, and `d` above 0 and below 2 ^ 62. At
-- `e` before the end of the frame, `clock_sync` returns false, with the clock as it was and `e` in
-- microseconds as the time to sleep. At `d` behind it, `clock_sync` returns true; the clock goes on by
-- exactly one step if `d` is at most a step, and is otherwise set to the counter, with the jerk
-- counted.
pub clock_sync_lem :
    (clock : TscClock) (sleep_usec e d : ℕ)
    → clock.tsc_clock < 2 ^ 64
    → clock.tsc_step < 2 ^ 62
    → e < clock.tsc_step
    → 0 < d
    → d < 2 ^ 62
    → (clock_sync ((due clock - e) % 2 ^ 64) sleep_usec clock
        ≡ (false, tscdelta_to_usec clock e, clock))
      × (clock_sync ((due clock + d) % 2 ^ 64) sleep_usec clock ≡ (
        true,
        sleep_usec,
        record clock {
          tsc_clock = if leb d clock.tsc_step then due clock % 2 ^ 64 else (due clock + d) % 2 ^ 64;
          jerk = if leb d clock.tsc_step then clock.jerk else (clock.jerk + 1) % 2 ^ 64;
          frame_to_frame_tsc = (due clock + d) % 2 ^ 64;
        },
      ))
clock_sync_lem clock sleep_usec e d c s early behind small = (
  (sync_cases clock sleep_usec e c s (omega arith)).0 early,
  elim (Bool-cases (leb d clock.tsc_step)) [
    | inl on_time ↦ rw on_time ((sync_cases clock sleep_usec d c s small).1 (ground arith) behind)
    | inr late ↦ rw late ((sync_cases clock sleep_usec d c s small).2 (ground arith))
  ],
)
