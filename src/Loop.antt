-- ===== src/Loop.antt =====
-- loop.c: the counters of the frame loop. What the time stamp counter reads at each call of clock_sync is
-- an argument.
pub mod Frames
pub mod Status
pub mod Tests
use craftsman_console.Base.{
  ℕ, ◌+◌, ◌*◌, ◌/◌, ◌%◌, ◌^◌, Bool, true, false, List, [], ◌∷◌, Option, none, some, if◌then◌else◌,
  not, ◌==◌, ltb, Outcome, ok, guard, ◌>>=◌, ◌>>◌,
}
use craftsman_console.Clock.{TscClock, clock_init, clock_sync}

-- The statics of loop.c that are not only printed.
pub record Loop : Type 0 where
  pub tsc_clock : TscClock
  pub sleep_usec : ℕ
  pub sleep_enable : ℕ
  pub frame : ℕ
  pub pause_frame : ℕ
  pub stall_frame : ℕ
  pub sleep_count : ℕ
  pub running : Bool
  pub run_count : ℕ
  pub input_queue : ℕ
  pub input_queue_max : ℕ

-- The body of `loop_one`'s loop: `nanosleep` is called once more than it is interrupted.
unfoldable pub slept : ℕ → ℕ → TscClock → Loop → Loop
slept interrupts usec clock l = record l {
  tsc_clock = clock;
  sleep_usec = usec;
  sleep_count =
      if l.sleep_enable == 0 then l.sleep_count else (l.sleep_count + interrupts + 1) % 2 ^ 32;
}

-- The loop of `loop_one`. A reading is the counter, and how often the sleep that follows it, if any, is
-- interrupted. `none`: the readings end before the loop does.
unfoldable pub await_frame : List (ℕ × ℕ) → Loop → Option Loop
unfolding slept
await_frame [] l = none
await_frame ((tsc_now, interrupts) ∷ readings) l =
    let (synced, usec, clock) = clock_sync tsc_now l.sleep_usec l.tsc_clock in
    elim synced [
      | true ↦ some (record l { tsc_clock = clock; sleep_usec = usec })
      | false ↦ await_frame readings (slept interrupts usec clock l)
    ]

-- `loop_one` on each of the three counters.
unfoldable pub loop_stall : List (ℕ × ℕ) → Loop → Option Loop
unfolding await_frame
loop_stall readings l =
    await_frame readings (record l { stall_frame = (l.stall_frame + 1) % 2 ^ 32 })

unfoldable pub loop_pause : List (ℕ × ℕ) → Loop → Option Loop
unfolding await_frame
loop_pause readings l =
    await_frame readings (record l { pause_frame = (l.pause_frame + 1) % 2 ^ 32 })

unfoldable pub loop_sync : List (ℕ × ℕ) → Loop → Option Loop
unfolding await_frame
loop_sync readings l = await_frame readings (record l { frame = (l.frame + 1) % 2 ^ 32 })

-- 1000 * 1000 / framerate is cut off to an integer; for no frames it is infinite, and no integer.
unfoldable pub loop_init : ℕ → ℕ → ℕ → Loop → Outcome Loop
unfolding clock_init
loop_init tsc_per_usec now framerate l =
    guard (ltb 0 framerate)
    >> (clock_init tsc_per_usec now (1000 * 1000 / framerate) >>= λ clock. ok (record l {
      tsc_clock = clock;
      frame = 0;
      pause_frame = 0;
      stall_frame = 0;
      running = true;
      input_queue = framerate;
      input_queue_max = framerate;
    }))

unfoldable pub loop_enable_yield : Loop → Loop
loop_enable_yield l = record l { sleep_enable = 1 }

unfoldable pub loop_run : Loop → Bool
loop_run l = l.running

unfoldable pub loop_frame : Loop → ℕ
loop_frame l = l.frame

unfoldable pub loop_input_frame : Loop → ℕ
loop_input_frame l = (l.frame + l.pause_frame) % 2 ^ 32

unfoldable pub loop_input_queue : Loop → ℕ
loop_input_queue l = l.input_queue

unfoldable pub loop_input_queue_max : Loop → ℕ
loop_input_queue_max l = l.input_queue_max

unfoldable pub loop_write_frame : Loop → ℕ
loop_write_frame l = (l.frame + l.pause_frame + l.input_queue) % 2 ^ 32

unfoldable pub loop_halt : Loop → Loop
loop_halt l = record l { running = false }

unfoldable pub loop_shutdown : Loop → Loop
loop_shutdown l = record l { run_count = (l.run_count + 1) % 2 ^ 32 }
