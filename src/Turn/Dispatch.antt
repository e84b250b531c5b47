-- ===== src/Turn/Dispatch.antt =====
-- A command of main.c's turn does the same whatever stands behind its terminator in the buffer.
use craftsman_console.Base.{
  ℕ, ◌≡◌, refl, sym, ◌∙◌, ◌+◌, Bool, false, ◌==◌, List, [], ◌∷◌, ◌++◌, length, IsText, Outcome,
}
use craftsman_console.Global.{Machine}
use craftsman_console.Execute.{World}
use craftsman_console.Execute.Commands.{
  command_tokens, execute_simulation, execute_parameter, execute_object, execute_variable,
  execute_result, execute_mutation, execute_condition, first_byte,
}
use craftsman_console.Execute.Tokens.{command_tokens-words}
use craftsman_console.Turn.{execute_any}

pub first_byte_same : (s spare : List ℕ) → first_byte (s ++ 0 ∷ spare) ≡ first_byte (s ++ 0 ∷ [])
first_byte_same [] spare = refl
first_byte_same (c ∷ s) spare = refl

module _ (s spare : List ℕ) (t : IsText s) where
  same_tokens :
      (k : ℕ)
      → command_tokens (length s) (s ++ 0 ∷ spare) (k + 1)
        ≡ command_tokens (length s) (s ++ 0 ∷ []) (k + 1)
  same_tokens k = command_tokens-words s spare k t ∙ sym (command_tokens-words s [] k t)

  simulation_same :
      execute_simulation (length s) (s ++ 0 ∷ spare) ≡ execute_simulation (length s) (s ++ 0 ∷ [])
  unfolding execute_simulation
  simulation_same = rw (same_tokens 1) refl

  parameter_same :
      (mach : Machine) (w : World)
      → execute_parameter mach (length s) (s ++ 0 ∷ spare) w
        ≡ execute_parameter mach (length s) (s ++ 0 ∷ []) w
  unfolding execute_parameter
  parameter_same mach w = rw (same_tokens 5) refl

  object_same :
      (w : World)
      → execute_object (length s) (s ++ 0 ∷ spare) w ≡ execute_object (length s) (s ++ 0 ∷ []) w
  unfolding execute_object
  object_same w = rw (same_tokens 1) refl

  variable_same :
      (mach : Machine) (w : World)
      → execute_variable mach (length s) (s ++ 0 ∷ spare) w
        ≡ execute_variable mach (length s) (s ++ 0 ∷ []) w
  unfolding execute_variable
  variable_same mach w = rw (same_tokens 2) refl

  result_same :
      (w : World)
      → execute_result (length s) (s ++ 0 ∷ spare) w ≡ execute_result (length s) (s ++ 0 ∷ []) w
  unfolding execute_result
  result_same w = rw (same_tokens 2) refl

  mutation_same :
      (mach : Machine) (w : World)
      → execute_mutation mach (length s) (s ++ 0 ∷ spare) w
        ≡ execute_mutation mach (length s) (s ++ 0 ∷ []) w
  unfolding execute_mutation
  mutation_same mach w = rw (same_tokens 3) refl

  condition_same :
      (mach : Machine) (w : World)
      → execute_condition mach (length s) (s ++ 0 ∷ spare) w
        ≡ execute_condition mach (length s) (s ++ 0 ∷ []) w
  unfolding execute_condition
  condition_same mach w = rw (same_tokens 3) refl

  pub execute_any-spare :
      (mach : Machine) (signed : Bool) (benchmark : World → Outcome World) (state : ℕ × World)
      → execute_any mach signed benchmark (length s) (s ++ 0 ∷ spare) state
        ≡ execute_any mach signed benchmark (length s) (s ++ 0 ∷ []) state
  unfolding execute_any
  execute_any-spare mach signed benchmark (goal, w) =
      rw
        (
          first_byte_same s spare,
          simulation_same,
          parameter_same mach w,
          object_same w,
          variable_same mach w,
          result_same w,
          mutation_same mach w,
          condition_same mach w,
        )
        refl

-- Only a command that begins with `b` is a benchmark.
pub execute_any-quiet :
    (mach : Machine) (signed : Bool) (benchmark other : World → Outcome World) (len : ℕ)
    (input : List ℕ) (state : ℕ × World)
    → (first_byte input == b'b') ≡ false
    → execute_any mach signed benchmark len input state
      ≡ execute_any mach signed other len input state
unfolding execute_any
execute_any-quiet mach signed benchmark other len input (goal, w) n = rw n refl
