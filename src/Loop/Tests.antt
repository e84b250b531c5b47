-- ===== src/Loop/Tests.antt =====
-- The theorem on loop.c at a concrete loop.
use craftsman_console.Base.{
  ℕ, ◌+◌, ◌-◌, ◌%◌, ◌^◌, ◌≡◌, refl, inl, ok, true, List, [], ◌∷◌, ◌++◌, some, arith,
}
use craftsman_console.Clock.Tests.{near_wrap}
use craftsman_console.Clock.Pace.{due}
use craftsman_console.Loop.{Loop, loop_sync, loop_pause, loop_stall, loop_write_frame}
use craftsman_console.Loop.Status.{
  first_lines, clock_lines, loop_print_status, loop_print_status-drift,
}
use craftsman_console.Loop.Frames.{stepped, loop_sync-cadence}

abbrev pub started : Loop
started = record {
  tsc_clock = near_wrap;
  sleep_usec = 0;
  sleep_enable = 1;
  frame = 6;
  pause_frame = 2;
  stall_frame = 0;
  sleep_count = 0;
  running = true;
  run_count = 0;
  input_queue = 10;
  input_queue_max = 10;
}

-- a reading before the end of the frame, behind which a sleep is interrupted once
abbrev early : List (ℕ × ℕ)
early = ((due near_wrap - 5000) % 2 ^ 64, 1) ∷ []

next_frame :
    ((l' : Loop) × (loop_sync (early ++ ((due near_wrap + 7) % 2 ^ 64, 0) ∷ []) started ≡ some l')
      × (l'.tsc_clock ≡ stepped near_wrap 7)
      × (l'.running ≡ true)
      × (l'.frame ≡ 7)
      × (loop_write_frame l' ≡ (loop_write_frame started + 1) % 2 ^ 32))
    × ((l' : Loop) × (loop_pause (early ++ ((due near_wrap + 7) % 2 ^ 64, 0) ∷ []) started
          ≡ some l')
        × (l'.tsc_clock ≡ stepped near_wrap 7)
        × (l'.running ≡ true)
        × (l'.frame ≡ 6)
        × (loop_write_frame l' ≡ (loop_write_frame started + 1) % 2 ^ 32))
    × ((l' : Loop) × (loop_stall (early ++ ((due near_wrap + 7) % 2 ^ 64, 0) ∷ []) started
          ≡ some l')
        × (l'.tsc_clock ≡ stepped near_wrap 7)
        × (l'.running ≡ true)
        × (l'.frame ≡ 6)
        × (loop_write_frame l' ≡ loop_write_frame started))
next_frame =
    loop_sync-cadence early started 7 0 [] (record { in_range = omega arith; step = omega arith })
      ((5000, omega arith, refl), tt) (omega arith) (omega arith)

-- The counter is 100 before its end, and the estimate 50 behind it.
status_past_end :
    loop_print_status 1000 2000 18446744073707551666 started
    ≡ ok (first_lines started ++ clock_lines 18446744073707551666 2 150 started)
status_past_end =
    loop_print_status-drift 1000 2000 18446744073707551666 150 started (λ e. ground (arith, e))
      (omega arith) (omega arith) (inl refl)
