-- ===== src/Execute/Commands.antt =====
-- The commands of execute.c. A line is the object that holds it, with its terminator.
use craftsman_console.Base.{
  ℕ, zero, suc, ◌+◌, ◌-◌, ◌%◌, ◌^◌, Bool, true, false, List, [], ◌∷◌, ◌++◌, Option, none, some, ltb,
  ◌==◌, if◌then◌else◌, length, get_elem?, get_or, set, replicate, Outcome, ok, or_fault, ◌>>=◌,
}
use craftsman_console.Base.Int.{ℤ, pos, negsuc}
use craftsman_console.Number.{strtol}
use craftsman_console.Hash.{memhash, memhash_cont}
use craftsman_console.Tokenize.{tokenize, token_string}
use craftsman_console.Global.{
  global_var, function_param, result_slot, Param, address, Machine, Op, GlobalVar, Globals,
  type_pointer, global_get, global_get_or_create, perform_op,
}
use craftsman_console.Dlfn.{
  Object, max_symbols, param_count, strcmp_eq, dlfn_get_symbol, dlfn_get_object,
}
use craftsman_console.Execute.{World, set_value_param, set_load_param, set_store_param, write_at}

unfoldable pub strings_at : List ℕ → List ℕ → Outcome (List (List ℕ))
strings_at line [] = ok []
strings_at line (t ∷ tokens) = do
  s ← or_fault (token_string line t)
  later ← strings_at line tokens
  ok (s ∷ later)

-- The strings of the tokens, as each command begins.
unfoldable pub command_tokens : ℕ → List ℕ → ℕ → Outcome (List (List ℕ))
unfolding tokenize strings_at
command_tokens len input token_count = do
  (tokens, line) ← tokenize len input token_count
  strings_at line tokens

-- `token[i][0]`
abbrev pub first_byte : List ℕ → ℕ
first_byte s = get_or s 0 0

abbrev pub simulation_max : ℕ
simulation_max = 2 ^ 32 - 1

unfoldable pub execute_simulation : ℕ → List ℕ → Outcome ℕ
unfolding command_tokens strtol
execute_simulation len input = command_tokens len input 2 >>= goal
  where
    goal : List (List ℕ) → Outcome ℕ
    goal (_ ∷ frame ∷ _) = ok (strtol frame % 2 ^ 32)
    goal _ = ok simulation_max

abbrev pub is_positive : ℤ → Bool
is_positive (pos n) = ltb 0 n
is_positive (negsuc n) = false

-- `load_param_handle[fi][pi] = func`
abbrev pub set_handle : ℕ → ℕ → ℤ → List (List ℤ) → List (List ℤ)
set_handle fi pi func handles = set handles fi (set (get_or handles fi []) pi func)

-- One parameter: the variable of that name is loaded from then on, or the value is stored.
unfoldable pub parameter_at : Machine → ℕ → ℕ → List ℕ → World → Outcome World
unfolding set_load_param set_value_param write_at
parameter_at mach fi pi str w =
    let (func, w') = set_load_param str (function_param fi pi) w in
    let w'' = record w' { load_param_handle = set_handle fi pi func w'.load_param_handle } in
    if is_positive func
    then ok w''
    else write_at mach (function_param fi pi) (set_value_param mach str).1 w''

-- The loop over the parameters of function `fi`, at parameter `pi`.
unfoldable pub parameters_from : Machine → ℕ → ℕ → ℕ → List (List ℕ) → World → Outcome World
unfolding parameter_at
parameters_from mach zero fi pi tokens w = ok w
parameters_from mach (suc left) fi pi tokens w = elim (get_elem? tokens (pi + 2)) [
  | none ↦ ok w
  | some str ↦ parameter_at mach fi pi str w >>= parameters_from mach left fi (pi + 1) tokens
]

-- The loop over the functions, at function `fi`: those named `filter`, or all for `*`.
unfoldable pub functions_from : Machine → ℕ → ℕ → List ℕ → List (List ℕ) → World → Outcome World
unfolding parameters_from strcmp_eq
functions_from mach zero fi filter tokens w = ok w
functions_from mach (suc left) fi filter tokens w = do
  f ← or_fault (get_elem? w.functions fi)
  w' ←
      (if (if first_byte filter == b'*' then true else strcmp_eq filter f.name)
        then parameters_from mach param_count fi 0 tokens w
        else ok w)
  functions_from mach left (fi + 1) filter tokens w'

unfoldable pub execute_parameter : Machine → ℕ → List ℕ → World → Outcome World
unfolding command_tokens functions_from
execute_parameter mach len input w = command_tokens len input 6 >>= apply
  where
    apply : List (List ℕ) → Outcome World
    apply (command ∷ filter ∷ params) =
        functions_from mach (length w.functions) 0 filter (command ∷ filter ∷ params) w
    apply _ = ok w

-- What is printed: the bytes of an object of 8 or 4 bytes. A name that no object has makes the
-- code read through a null pointer.
unfoldable pub execute_object : ℕ → List ℕ → World → Outcome (Option (List ℕ))
unfolding command_tokens dlfn_get_object
execute_object len input w = command_tokens len input 2 >>= show
  where
    show_object : Object → Outcome (Option (List ℕ))
    show_object obj =
        if obj.address == 0
        then ok none
        else if length obj.bytes == 8
        then ok (some obj.bytes)
        else if length obj.bytes == 4
        then ok (some obj.bytes)
        else ok none

    show : List (List ℕ) → Outcome (Option (List ℕ))
    show (_ ∷ name ∷ _) = or_fault (dlfn_get_object name w.objects) >>= λ i.
        or_fault (get_elem? w.objects i) >>= show_object
    show _ = ok none

-- The hashes that follow from the hash so far.
unfoldable pub hash_from : Bool → ℕ → List Object → List ℕ
unfolding memhash_cont
hash_from signed hash_val [] = []
hash_from signed hash_val (o ∷ objects) =
    let next = memhash_cont signed hash_val o.bytes in next ∷ hash_from signed next objects

-- `signed` is whether `char` is signed.
unfoldable pub execute_hash : Bool → World → World
unfolding hash_from memhash
execute_hash signed w = record w {
  hash_objects =
      hash_from signed (memhash signed []) w.objects
      ++ replicate (max_symbols - length w.objects) 0;
}

-- The variable at an index is replaced.
abbrev pub set_var : ℕ → GlobalVar → World → World
set_var i var w = record w { globals = set w.globals i var }

unfoldable pub execute_variable : Machine → ℕ → List ℕ → World → Outcome World
unfolding command_tokens global_get_or_create set_value_param
execute_variable mach len input w = command_tokens len input 3 >>= apply
  where
    store : ℕ × Param → Option ℕ × Globals → Outcome World
    store typed (none, vars) = ok (record w { globals = vars })
    store (type, value) (some i, vars) = or_fault (get_elem? vars i) >>= λ var.
        ok (record w { globals = set vars i (record var { value = value; type = type }) })

    apply : List (List ℕ) → Outcome World
    apply (_ ∷ name ∷ value ∷ _) =
        store (set_value_param mach value) (global_get_or_create name w.globals)
    apply _ = ok w

unfoldable pub execute_result : ℕ → List ℕ → World → Outcome World
unfolding command_tokens dlfn_get_symbol set_store_param
execute_result len input w = command_tokens len input 3 >>= apply
  where
    handle : ℕ → ℤ × World → World
    handle sym (func, w') = record w' { save_result_handle = set w'.save_result_handle sym func }

    store : List ℕ → Option ℕ → Outcome World
    store variable none = ok w
    store variable (some sym) = ok (handle sym (set_store_param variable (result_slot sym) w))

    apply : List (List ℕ) → Outcome World
    apply (_ ∷ function ∷ variable ∷ _) = store variable (dlfn_get_symbol function w.functions)
    apply _ = ok w

-- An operand: a pointer to the variable of that name, or the value that is written.
unfoldable pub operand_of : Machine → List ℕ → Globals → ℕ × Param
unfolding global_get set_value_param
operand_of mach str vars = elim (global_get str vars) [
  | some i ↦ (type_pointer, address (global_var i))
  | none ↦ set_value_param mach str
]

unfoldable pub op_of : ℕ → ℕ × Param → ℕ × Param → Op
op_of operator (type_0, operand_0) (type_1, operand_1) = record {
  operand_0 = operand_0;
  operand_1 = operand_1;
  operand_type_0 = type_0;
  operand_type_1 = type_1;
  opcode = operator;
}

unfoldable pub execute_mutation : Machine → ℕ → List ℕ → World → Outcome World
unfolding command_tokens operand_of op_of global_get
execute_mutation mach len input w = command_tokens len input 4 >>= apply
  where
    mutate : List ℕ → List ℕ → Option ℕ → Outcome World
    mutate operator rhs none = ok w
    mutate operator rhs (some i) = or_fault (get_elem? w.globals i) >>= λ lhv. ok (
        set_var i
          (record lhv {
            op =
                op_of (first_byte operator) (type_pointer, address (global_var i))
                  (operand_of mach rhs w.globals);
          })
          w)

    apply : List (List ℕ) → Outcome World
    apply (_ ∷ lhs ∷ operator ∷ rhs ∷ _) = mutate operator rhs (global_get lhs w.globals)
    apply _ = ok w

-- The result that is printed: its type, and its value where there is one.
unfoldable pub execute_condition :
    Machine → ℕ → List ℕ → World → Outcome (Option (ℕ × Option Param))
unfolding command_tokens operand_of op_of perform_op
execute_condition mach len input w = command_tokens len input 4 >>= apply
  where
    apply : List (List ℕ) → Outcome (Option (ℕ × Option Param))
    apply (_ ∷ lhs ∷ operator ∷ rhs ∷ _) =
        perform_op mach w.globals (
          op_of (first_byte operator) (operand_of mach lhs w.globals)
            (operand_of mach rhs w.globals))
        >>= λ out. ok (some out)
    apply _ = ok none
