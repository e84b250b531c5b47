-- ===== src/Global.antt =====
-- global.c: the table of variables, and the operations on them.
pub mod Names
pub mod Print
pub mod Counting
pub mod Lookup
pub mod Ops
pub mod Tests
use Prim.Native.Nat.{bit_and}
use craftsman_console.Base.{
  ℕ, zero, suc, ◌+◌, ◌-◌, ◌%◌, ◌^◌, Bool, true, false, List, [], ◌∷◌, ◌++◌, Option, none, some, ltb,
  leb, ◌==◌, if◌then◌else◌, length, take, set, replicate, get_elem?, Outcome, ok, fault, or_fault,
  ◌>>=◌,
}
use craftsman_console.Number.{Doubles}

-- What the program takes the address of.
pub data Address : Type 0 where
  global_var : ℕ → Address
  global_value : ℕ → Address
  function_param : ℕ → ℕ → Address
  result_slot : ℕ → Address

-- `Param_t`: a union of 8 bytes, which hold a number, a `double` or a pointer.
pub data Param : Type 0 where
  word : ℕ → Param
  address : Address → Param

-- The machine under the program: its floating point, and where it puts the program's objects.
pub record Machine : Type 0 where
  pub doubles : Doubles
  pub layout : Address → ℕ

-- the member `i` or `d` of a union
abbrev pub word_of : Machine → Param → ℕ
word_of mach (word n) = n
word_of mach (address a) = mach.layout a

-- `Op_t`
pub record Op : Type 0 where
  pub operand_0 : Param
  pub operand_1 : Param
  pub operand_type_0 : ℕ
  pub operand_type_1 : ℕ
  pub opcode : ℕ

-- `Global_t`; the name is its 16 bytes.
pub record GlobalVar : Type 0 where
  pub name : List ℕ
  pub value : Param
  pub type : ℕ
  pub op : Op

-- The entries of `global_var` up to `global_used`.
abbrev pub Globals : Type 0
Globals = List GlobalVar

abbrev pub max_variable_name : ℕ
max_variable_name = 16

abbrev pub max_variable : ℕ
max_variable = 64

abbrev pub type_int : ℕ
type_int = b'i'

abbrev pub type_double : ℕ
type_double = b'd'

abbrev pub type_pointer : ℕ
type_pointer = b'p'

abbrev pub of_bool : Bool → ℕ
of_bool true = 1
of_bool false = 0

module _ (mach : Machine) where
  open mach use {doubles}

  unfoldable pub less_than : GlobalVar → GlobalVar → ℕ
  less_than lhv rhv =
      if bit_and lhv.type rhv.type == type_int
      then of_bool (ltb (word_of mach lhv.value) (word_of mach rhv.value))
      else if bit_and lhv.type rhv.type == type_double
      then of_bool (doubles.less (word_of mach lhv.value) (word_of mach rhv.value))
      else 0

  unfoldable pub greater_than : GlobalVar → GlobalVar → ℕ
  greater_than lhv rhv =
      if bit_and lhv.type rhv.type == type_int
      then of_bool (ltb (word_of mach rhv.value) (word_of mach lhv.value))
      else if bit_and lhv.type rhv.type == type_double
      then of_bool (doubles.less (word_of mach rhv.value) (word_of mach lhv.value))
      else 0

  unfoldable pub perform_op_double : ℕ → ℕ → ℕ → ℕ
  perform_op_double opcode lhv rhv =
      if opcode == b'+'
      then doubles.add lhv rhv
      else if opcode == b'-'
      then doubles.sub lhv rhv
      else if opcode == b'>'
      then doubles.of_int (of_bool (doubles.less rhv lhv))
      else if opcode == b'<'
      then doubles.of_int (of_bool (doubles.less lhv rhv))
      else 0

unfoldable pub perform_op_int : ℕ → ℕ → ℕ → ℕ
perform_op_int opcode lhv rhv =
    if opcode == b'+'
    then (lhv + rhv) % 2 ^ 64
    else if opcode == b'-'
    then (lhv + 2 ^ 64 - rhv) % 2 ^ 64
    else if opcode == b'>'
    then of_bool (ltb rhv lhv)
    else if opcode == b'<'
    then of_bool (ltb lhv rhv)
    else 0

-- The variable behind a pointer of an operand.
unfoldable pub deref_global : Globals → Param → Outcome GlobalVar
deref_global vars (address (global_var i)) = or_fault (get_elem? vars i)
deref_global vars _ = fault

-- The loop's body in `perform_op`: the operand's type and value.
unfoldable pub fetch_operand : Globals → ℕ → Param → Outcome (ℕ × Param)
unfolding deref_global
fetch_operand vars op_type operand =
    if op_type == type_pointer
    then (deref_global vars operand >>= λ var. ok (var.type, var.value))
    else ok (op_type, operand)

-- The type returned, and what is written through `out`: nothing for a type that is neither.
unfoldable pub perform_op : Machine → Globals → Op → Outcome (ℕ × Option Param)
unfolding fetch_operand perform_op_int perform_op_double
perform_op mach vars op = do
  (type_0, operand_0) ← fetch_operand vars op.operand_type_0 op.operand_0
  (type_1, operand_1) ← fetch_operand vars op.operand_type_1 op.operand_1
  ok (
    bit_and type_0 type_1,
    if bit_and type_0 type_1 == type_int
        then some
            (word (perform_op_int op.opcode (word_of mach operand_0) (word_of mach operand_1)))
        else if bit_and type_0 type_1 == type_double
        then some (
            word
              (perform_op_double mach op.opcode (word_of mach operand_0) (word_of mach operand_1)))
        else none,
  )

abbrev pub zero_op : Op
zero_op = record {
  operand_0 = word 0;
  operand_1 = word 0;
  operand_type_0 = 0;
  operand_type_1 = 0;
  opcode = 0;
}

-- `name` is a string without its terminator.
unfoldable pub global_init : List ℕ → GlobalVar
global_init name = record {
  name =
      set (take max_variable_name (name ++ replicate max_variable_name 0)) (max_variable_name - 1)
        0;
  value = word 0;
  type = 0;
  op = zero_op;
}

-- `strncmp(a, b, n) == 0` on strings with their terminators
unfoldable pub strncmp_eq : ℕ → List ℕ → List ℕ → Bool
strncmp_eq zero xs ys = true
strncmp_eq (suc n) (x ∷ xs) (y ∷ ys) =
    let rest = strncmp_eq n xs ys in if x == y then (if x == 0 then true else rest) else false
strncmp_eq (suc n) _ _ = false

abbrev pub is_named : List ℕ → GlobalVar → Bool
is_named name var = strncmp_eq max_variable_name (name ++ 0 ∷ []) var.name

-- The index of the variable that is returned.
unfoldable pub global_get_from : ℕ → List ℕ → Globals → Option ℕ
global_get_from i name [] = none
global_get_from i name (var ∷ vars) =
    let later = global_get_from (i + 1) name vars in if is_named name var then some i else later

unfoldable pub global_get : List ℕ → Globals → Option ℕ
unfolding global_get_from strncmp_eq
global_get name vars = global_get_from 0 name vars

unfoldable pub global_append : GlobalVar → Globals → Bool × Globals
global_append var vars =
    if leb max_variable (length vars) then (false, vars) else (true, vars ++ var ∷ [])

unfoldable pub global_get_or_create : List ℕ → Globals → Option ℕ × Globals
unfolding global_get global_init
global_get_or_create name vars = elim (global_get name vars) [
  | some i ↦ (some i, vars)
  | none ↦
      if leb max_variable (length vars)
      then (none, vars)
      else (some (length vars), vars ++ global_init name ∷ [])
]

-- The body of `global_var_ops`' loop. Where nothing is written to `result`, its value is indeterminate, and
-- its use undefined behaviour.
unfoldable pub global_var_op : Machine → Globals → GlobalVar → Outcome GlobalVar
unfolding perform_op
global_var_op mach vars var =
    if var.op.opcode == 0
    then ok var
    else (perform_op mach vars var.op >>= λ (result_type, out).
        or_fault out >>= λ result. ok (record var { value = result; type = result_type }))

-- The loop at index `i`, with `left` variables left.
unfoldable pub global_var_ops_from : ℕ → ℕ → Machine → Globals → Outcome Globals
unfolding global_var_op
global_var_ops_from zero i mach vars = ok vars
global_var_ops_from (suc left) i mach vars = do
  var ← or_fault (get_elem? vars i)
  var' ← global_var_op mach vars var
  global_var_ops_from left (i + 1) mach (set vars i var')

unfoldable pub global_var_ops : Machine → Globals → Outcome Globals
unfolding global_var_ops_from
global_var_ops mach vars = global_var_ops_from (length vars) 0 mach vars
