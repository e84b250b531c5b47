-- ===== src/Input/Tests.antt =====
-- The theorems on input.c at a concrete buffer.
use craftsman_console.Base.{
  ℕ, zero, suc, ◌≡◌, refl, true, List, [], ◌∷◌, arith, ok, length-replicate, replicate,
}
use craftsman_console.Base.Int.{pos}
use craftsman_console.Network.{linux_flags}
use craftsman_console.Input.{Input}
use craftsman_console.Input.Lines.{AllZero}
use craftsman_console.Input.Stream.{IsClear, Fit, input_polls, input_polls-stream}

abbrev clear_input : Input
clear_input = record { buf = replicate 4096 0; used_buf = pos 0; polled = true }

clear_input-IsClear : IsClear clear_input []
clear_input-IsClear = record {
  holds = record {
    behind = replicate 4095 0;
    contents = refl;
    sized = length-replicate 4096 zero;
    text = tt;
  };
  zeros = replicate_zeros 4095;
  used = refl;
  part = tt;
}
  where
    replicate_zeros : (n : ℕ) → AllZero (replicate n 0)
    replicate_zeros zero = tt
    replicate_zeros (suc n) = (refl, replicate_zeros n)

-- "hi", a newline, and "go" in two parts
abbrev pieces : List (List ℕ)
pieces = (b'h' ∷ b'i' ∷ 10 ∷ b'g' ∷ []) ∷ (b'o' ∷ 10 ∷ []) ∷ []

pieces-Fit : Fit linux_flags 1 refl [] pieces
pieces-Fit = (ground arith, omega arith, (ground arith, omega arith, tt))

poll_pieces :
    (inp' : Input) × (input_polls linux_flags 1 refl pieces clear_input
      ≡ ok ((b'h' ∷ b'i' ∷ []) ∷ (b'g' ∷ b'o' ∷ []) ∷ [], inp'))
    × IsClear inp' []
poll_pieces =
    input_polls-stream linux_flags 1 refl pieces clear_input [] clear_input-IsClear pieces-Fit
