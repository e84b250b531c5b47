-- ===== src/Loop/Frames.antt =====
-- What loop_sync, loop_pause and loop_stall of loop.c count, and how the clock keeps the cadence.
use craftsman_console.Base.{
  ℕ, ◌+◌, ◌-◌, ◌%◌, ◌^◌, ◌≤◌, ◌<◌, ◌≡◌, refl, ap, ◌∙◌, Bool, true, false, List, [], ◌∷◌, ◌++◌,
  Option, some, arith,
}
use craftsman_console.Clock.{TscClock, tscdelta_to_usec, clock_sync}
use craftsman_console.Clock.Pace.{due, sync_cases}
use craftsman_console.Loop.{
  Loop, slept, await_frame, loop_stall, loop_pause, loop_sync, loop_write_frame,
}

-- Readings up to the end of the frame that a clock is in, by less than a step before it.
abbrev pub Waits : TscClock → List (ℕ × ℕ) → Type 0
Waits clock [] = Unit
Waits clock ((now, interrupts) ∷ readings) =
    ((d : ℕ) × (d < clock.tsc_step) × (now ≡ (due clock - d) % 2 ^ 64)) × Waits clock readings

-- A clock whose step is in range.
pub record IsSteady (clock : TscClock) : Type 0 where
  pub in_range : clock.tsc_clock < 2 ^ 64
  pub step : clock.tsc_step < 2 ^ 62

-- What a wait leaves as it was.
pub record SameCounts (l l' : Loop) : Type 0 where
  pub frames : l'.frame ≡ l.frame
  pub pauses : l'.pause_frame ≡ l.pause_frame
  pub stalls : l'.stall_frame ≡ l.stall_frame
  pub runs : l'.running ≡ l.running
  pub queue : l'.input_queue ≡ l.input_queue

-- the clock one step on
abbrev pub stepped : TscClock → ℕ → TscClock
stepped clock d = record clock {
  tsc_clock = due clock % 2 ^ 64;
  frame_to_frame_tsc = (due clock + d) % 2 ^ 64;
}

-- a round of the loop, by what clock_sync answers
await_frame_round :
    (now n : ℕ) (readings : List (ℕ × ℕ)) (l : Loop) (answer : Bool × ℕ × TscClock)
    → clock_sync now l.sleep_usec l.tsc_clock ≡ answer
    → await_frame ((now, n) ∷ readings) l ≡ (elim answer.0 [
      | true ↦ some (record l { tsc_clock = answer.2; sleep_usec = answer.1 })
      | false ↦ await_frame readings (slept n answer.1 answer.2 l)
    ])
unfolding await_frame
await_frame_round now n readings l answer e =
    ap {B = Option Loop}
      (λ (r : Bool × ℕ × TscClock). elim r.0 [
        | true ↦ some (record l { tsc_clock = r.2; sleep_usec = r.1 })
        | false ↦ await_frame readings (slept n r.1 r.2 l)
      ])
      e

await_frame-Waits :
    (readings : List (ℕ × ℕ)) (l : Loop) (d interrupts : ℕ) (more : List (ℕ × ℕ))
    → IsSteady l.tsc_clock
    → Waits l.tsc_clock readings
    → 0 < d
    → d ≤ l.tsc_clock.tsc_step
    → (l' : Loop) × (await_frame (readings ++ ((due l.tsc_clock + d) % 2 ^ 64, interrupts) ∷ more) l
        ≡ some l')
      × (l'.tsc_clock ≡ stepped l.tsc_clock d)
      × SameCounts l l'
unfolding slept
await_frame-Waits [] l d interrupts more s w late on_time =
    let (early, arrives, misses) =
      sync_cases l.tsc_clock l.sleep_usec d s.in_range s.step (omega (arith, s.step)) in
    (
      record l { tsc_clock = stepped l.tsc_clock d },
      await_frame_round _ interrupts more l _ (arrives on_time late),
      refl,
      record { frames = refl; pauses = refl; stalls = refl; runs = refl; queue = refl },
    )
await_frame-Waits ((now, n) ∷ readings) l d interrupts more s w late on_time =
    let ((e, before, at), rest) = w in
    let (early, arrives, misses) =
      sync_cases l.tsc_clock l.sleep_usec e s.in_range s.step (omega (arith, s.step)) in
    let l₁ = slept n (tscdelta_to_usec l.tsc_clock e) l.tsc_clock l in
    let (l', returns, clock, same) =
      await_frame-Waits readings l₁ d interrupts more s rest late on_time in
    (
      l',
      rw at (await_frame_round _ n _ l _ (early before)) ∙ returns,
      clock,
      record {
        frames = same.frames;
        pauses = same.pauses;
        stalls = same.stalls;
        runs = same.runs;
        queue = same.queue;
      },
    )

-- Frames that are late by at most a step: the reading behind the end of the frame comes after any
-- number of readings before it. Then `loop_sync`, `loop_pause` and `loop_stall` return with the
-- clock on by exactly one step, however late the reading is, and with the loop running as it was.
-- The frame for which input is written is one further on after `loop_sync` and `loop_pause`, and the
-- same after `loop_stall`; only `loop_sync` changes the frame. The step is below 2 ^ 62.
pub loop_sync-cadence :
    (readings : List (ℕ × ℕ)) (l : Loop) (d interrupts : ℕ) (more : List (ℕ × ℕ))
    → IsSteady l.tsc_clock
    → Waits l.tsc_clock readings
    → 0 < d
    → d ≤ l.tsc_clock.tsc_step
    → ((l' : Loop) × (loop_sync (readings ++ ((due l.tsc_clock + d) % 2 ^ 64, interrupts) ∷ more) l
          ≡ some l')
        × (l'.tsc_clock ≡ stepped l.tsc_clock d)
        × (l'.running ≡ l.running)
        × (l'.frame ≡ (l.frame + 1) % 2 ^ 32)
        × (loop_write_frame l' ≡ (loop_write_frame l + 1) % 2 ^ 32))
      × ((l' : Loop) × (loop_pause
              (readings ++ ((due l.tsc_clock + d) % 2 ^ 64, interrupts) ∷ more)
              l
            ≡ some l')
          × (l'.tsc_clock ≡ stepped l.tsc_clock d)
          × (l'.running ≡ l.running)
          × (l'.frame ≡ l.frame)
          × (loop_write_frame l' ≡ (loop_write_frame l + 1) % 2 ^ 32))
      × ((l' : Loop) × (loop_stall
              (readings ++ ((due l.tsc_clock + d) % 2 ^ 64, interrupts) ∷ more)
              l
            ≡ some l')
          × (l'.tsc_clock ≡ stepped l.tsc_clock d)
          × (l'.running ≡ l.running)
          × (l'.frame ≡ l.frame)
          × (loop_write_frame l' ≡ loop_write_frame l))
unfolding loop_sync loop_pause loop_stall loop_write_frame
loop_sync-cadence readings l d interrupts more s w late on_time =
    let (l₁, e₁, c₁, k₁) =
      await_frame-Waits readings (record l { frame = (l.frame + 1) % 2 ^ 32 }) d interrupts more s w
        late on_time in
    let (l₂, e₂, c₂, k₂) =
      await_frame-Waits readings (record l { pause_frame = (l.pause_frame + 1) % 2 ^ 32 }) d
        interrupts more s w late on_time in
    let (l₃, e₃, c₃, k₃) =
      await_frame-Waits readings (record l { stall_frame = (l.stall_frame + 1) % 2 ^ 32 }) d
        interrupts more s w late on_time in
    (
      (l₁, e₁, c₁, k₁.runs, k₁.frames, omega (arith, k₁.frames, k₁.pauses, k₁.queue)),
      (l₂, e₂, c₂, k₂.runs, k₂.frames, omega (arith, k₂.frames, k₂.pauses, k₂.queue)),
      (l₃, e₃, c₃, k₃.runs, k₃.frames, omega (arith, k₃.frames, k₃.pauses, k₃.queue)),
    )
