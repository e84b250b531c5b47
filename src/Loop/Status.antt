-- ===== src/Loop/Status.antt =====
-- loop.c: what is printed of the loop. What clock() answers is an argument.
use craftsman_console.Base.{
  ℕ, ◌+◌, ◌*◌, ◌/◌, ◌%◌, ◌^◌, ◌≤◌, ◌<◌, ◌≡◌, ap, ◌∙◌, ◌≢◌, ◌⊎◌, inl, inr, Bool, true, false, List,
  [], ◌∷◌, ◌++◌, min, ◌==◌, ne→==, arith, Outcome, ok, fault, if◌then◌else◌,
}
use craftsman_console.Clock.{sub_u64}
use craftsman_console.Print.{number, string, Printed, printf}
use craftsman_console.Loop.{Loop, loop_write_frame}

unfoldable pub loop_print_frame : Loop → List Printed
loop_print_frame l =
    printf "[ %d frame ] [ %d pause ] [ %d stall ] [ %d sleep_count ]\n"
      (number l.frame ∷ number l.pause_frame ∷ number l.stall_frame ∷ number l.sleep_count ∷ [])
    ∷ []

unfoldable pub loop_print_input : Loop → List Printed
unfolding loop_write_frame
loop_print_input l =
    printf "[ %d input_queue ] [ %d loop_write_frame] \n"
      (number l.input_queue ∷ number (loop_write_frame l) ∷ [])
    ∷ []

-- "Running", or "Terminating"
abbrev state_of : Bool → List ℕ
state_of true = b'R' ∷ b'u' ∷ b'n' ∷ b'n' ∷ b'i' ∷ b'n' ∷ b'g' ∷ []
state_of false = b'T' ∷ b'e' ∷ b'r' ∷ b'm' ∷ b'i' ∷ b'n' ∷ b'a' ∷ b't' ∷ b'i' ∷ b'n' ∷ b'g' ∷ []

-- The shorter way round from one value of the counter to the other.
unfoldable pub tsc_drift : ℕ → ℕ → ℕ
tsc_drift tsc tsc_end = min (sub_u64 tsc_end tsc) (sub_u64 tsc tsc_end)

abbrev pub tsc_per_ms : Loop → ℕ
tsc_per_ms l = (l.tsc_clock.median_tsc_per_usec * 1000) % 2 ^ 64

-- Where the counter is to be after so many milliseconds.
abbrev pub tsc_end_estimate : ℕ → ℕ → Loop → ℕ
tsc_end_estimate tsc_start elapsed_ms l = (tsc_start + tsc_per_ms l * elapsed_ms) % 2 ^ 64

-- The lines from the drift on.
abbrev pub clock_lines : ℕ → ℕ → ℕ → Loop → List Printed
clock_lines tsc_start elapsed_ms drift l =
    printf "[ %lu tsc ] [ %lu tscEnd ] [ %lu tscDrift ] [ %lu tscPerMs ] [ %lu ms drift ]\n " (
      number l.tsc_clock.tsc_clock
      ∷ number (tsc_end_estimate tsc_start elapsed_ms l)
      ∷ number drift
      ∷ number (tsc_per_ms l)
      ∷ number (drift / tsc_per_ms l)
      ∷ [])
    ∷ printf "%lu ms elapsed by clock\n" (number elapsed_ms ∷ [])
    ∷ []

abbrev pub first_lines : Loop → List Printed
unfolding loop_print_frame
first_lines l =
    printf "--%u loop %s--\n" (number l.run_count ∷ string (state_of l.running) ∷ [])
    ∷ loop_print_frame l

-- `clock_elapsed` is `clock() - clock_start`, and `clocks_per_ms` is `CLOCKS_PER_SEC / 1000`. A division by
-- zero is undefined.
unfoldable pub loop_print_status : ℕ → ℕ → ℕ → Loop → Outcome (List Printed)
loop_print_status clocks_per_ms clock_elapsed tsc_start l =
    let elapsed_ms = clock_elapsed / clocks_per_ms in
    let drift = tsc_drift l.tsc_clock.tsc_clock (tsc_end_estimate tsc_start elapsed_ms l) in
    if tsc_per_ms l == 0
    then fault
    else ok (first_lines l ++ clock_lines tsc_start elapsed_ms drift l)

drift_lem :
    (tsc tsc_end k : ℕ)
    → tsc < 2 ^ 64
    → tsc_end < 2 ^ 64
    → k ≤ 2 ^ 63
    → ((tsc_end ≡ (tsc + k) % 2 ^ 64) ⊎ (tsc ≡ (tsc_end + k) % 2 ^ 64))
    → tsc_drift tsc tsc_end ≡ k
unfolding tsc_drift
drift_lem tsc tsc_end k t e near (inl ahead) = omega arith
drift_lem tsc tsc_end k t e near (inr behind) = omega arith

-- Where the counter and the estimate are `k` apart, by half of the counter's range at most and around its
-- end too, the status that is printed has `k` as the drift, whichever of them is ahead, and `k` divided by
-- the ticks in a millisecond. That is not zero, and the clock's counter is in range.
pub loop_print_status-drift :
    (clocks_per_ms clock_elapsed tsc_start k : ℕ) (l : Loop)
    → tsc_per_ms l ≢ 0
    → l.tsc_clock.tsc_clock < 2 ^ 64
    → k ≤ 2 ^ 63
    → ((tsc_end_estimate tsc_start (clock_elapsed / clocks_per_ms) l
          ≡ (l.tsc_clock.tsc_clock + k) % 2 ^ 64)
        ⊎ (l.tsc_clock.tsc_clock
            ≡ (tsc_end_estimate tsc_start (clock_elapsed / clocks_per_ms) l + k) % 2 ^ 64))
    → loop_print_status clocks_per_ms clock_elapsed tsc_start l
      ≡ ok (first_lines l ++ clock_lines tsc_start (clock_elapsed / clocks_per_ms) k l)
unfolding loop_print_status
loop_print_status-drift clocks_per_ms clock_elapsed tsc_start k l some_ticks t near apart =
    let ms = clock_elapsed / clocks_per_ms in
    let drift = tsc_drift l.tsc_clock.tsc_clock (tsc_end_estimate tsc_start ms l) in
    ap {B = Outcome (List Printed)}
      (λ b. if b then fault else ok (first_lines l ++ clock_lines tsc_start ms drift l))
      (ne→== (tsc_per_ms l) 0 some_ticks)
    ∙ ap (λ d. ok (first_lines l ++ clock_lines tsc_start ms d l))
        (drift_lem l.tsc_clock.tsc_clock (tsc_end_estimate tsc_start ms l) k t (omega arith) near
          apart)
