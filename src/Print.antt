-- ===== src/Print.antt =====
-- stdio.h's output, as the calls that are made: a format, and the values that it prints.
use Prim.Native.String.{String}
use craftsman_console.Base.{ℕ, List}

-- A number or a character, a `double` by its bits, a string, and a pointer.
pub data Argument : Type 0 where
  number real pointer : ℕ → Argument
  string : List ℕ → Argument

pub data Printed : Type 0 where
  printf : String → List Argument → Printed
  puts : String → Printed
