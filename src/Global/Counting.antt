-- ===== src/Global/Counting.antt =====
-- global.c: increment and decrement of a variable.
use craftsman_console.Base.{ℕ, ◌+◌, ◌-◌, ◌%◌, ◌^◌, ◌<◌, ◌≡◌, ap, List, arith, ◌==◌, if◌then◌else◌}
use craftsman_console.Global.{Op, word, Machine, word_of, GlobalVar, type_int, type_double}

module _ (mach : Machine) where
  open mach use {doubles}

  -- `++` and `--` on a variable: on its number, or on its `double`, with what it is converted to.
  changed : (ℕ → ℕ) → (ℕ → ℕ) → GlobalVar → ℕ × GlobalVar
  changed on_int on_double var =
      let n = word_of mach var.value in
      if var.type == type_int
      then (on_int n, record var { value = word (on_int n) })
      else if var.type == type_double
      then (doubles.truncate (on_double n), record var { value = word (on_double n) })
      else (0, var)

  -- The value that is returned, and the variable.
  unfoldable pub increment : GlobalVar → ℕ × GlobalVar
  unfolding changed
  increment var = changed (λ n. (n + 1) % 2 ^ 64) (λ d. doubles.add d (doubles.of_int 1)) var

  unfoldable pub decrement : GlobalVar → ℕ × GlobalVar
  unfolding changed
  decrement var =
      changed (λ n. (n + 2 ^ 64 - 1) % 2 ^ 64) (λ d. doubles.sub d (doubles.of_int 1)) var

  abbrev number_var : List ℕ → Op → ℕ → GlobalVar
  number_var name op n = record { name = name; value = word n; type = type_int; op = op }

  -- A variable that is a number is the same after both, around the end of the range too.
  pub decrement-increment :
      (name : List ℕ) (op : Op) (n : ℕ)
      → n < 2 ^ 64
      → decrement (increment (number_var name op n)).1 ≡ (n, number_var name op n)
  unfolding increment decrement changed
  decrement-increment name op n small =
      ap {B = ℕ × GlobalVar} (λ k. (k, number_var name op k)) (omega (arith, small))
