-- ===== src/Global/Ops.antt =====
-- The operations on variables of global.c: what an operation on integers and one on mixed types do.
use craftsman_console.Base.{
  ℕ, ◌≡◌, ◌≢◌, ap, ◌∙◌, ne→==, false, Option, some, none, ◌==◌, get_elem?, ok, fault, or_fault,
  ◌>>=◌,
}
use craftsman_console.Global.{
  global_var, Param, word, address, Machine, word_of, Op, GlobalVar, Globals, type_int, type_double,
  type_pointer, perform_op_int, deref_global, fetch_operand, perform_op, global_var_op,
}

-- `var = var + 1` and the like: the operation that `mutation` stores, with a number on the right.
abbrev pub number_op : ℕ → ℕ → ℕ → ℕ → Op
number_op opcode i type n = record {
  operand_0 = address (global_var i);
  operand_1 = word n;
  operand_type_0 = type_pointer;
  operand_type_1 = type;
  opcode = opcode;
}

module _ (mach : Machine) (vars : Globals) (var : GlobalVar) (opcode i n : ℕ)
    (at : get_elem? vars i ≡ some var) (int : var.type ≡ type_int) where
  perform_op-int :
      perform_op mach vars (number_op opcode i type_int n)
      ≡ ok (type_int, some (word (perform_op_int opcode (word_of mach var.value) n)))
  unfolding perform_op fetch_operand deref_global
  perform_op-int = rw (at, int)

  perform_op-mixed : perform_op mach vars (number_op opcode i type_double n) ≡ ok (96, none)
  unfolding perform_op fetch_operand deref_global
  perform_op-mixed = rw (at, int)

global_var_op_result :
    (mach : Machine) (vars : Globals) (var : GlobalVar) (type : ℕ) (out : Option Param)
    → (var.op.opcode == 0) ≡ false
    → perform_op mach vars var.op ≡ ok (type, out)
    → global_var_op mach vars var
      ≡ (or_fault out >>= λ result. ok (record var { value = result; type = type }))
unfolding global_var_op
global_var_op_result mach vars var type out nz e = rw (nz, e)

-- A variable of integers whose operation takes its own value and a number without a point has what
-- `perform_op_int` makes of the two, and is still an integer.
pub global_var_op-int :
    (mach : Machine) (vars : Globals) (var : GlobalVar) (opcode i n : ℕ)
    → opcode ≢ 0
    → var.op ≡ number_op opcode i type_int n
    → get_elem? vars i ≡ some var
    → var.type ≡ type_int
    → global_var_op mach vars var
      ≡ ok (record var {
        value = word (perform_op_int opcode (word_of mach var.value) n);
        type = type_int;
      })
unfolding global_var_op
global_var_op-int mach vars var opcode i n nz op at int =
    global_var_op_result mach vars var _ _ (ap (λ (o : Op). o.opcode == 0) op ∙ ne→== opcode 0 nz)
      (ap (perform_op mach vars) op ∙ perform_op-int mach vars var opcode i n at int)

-- A variable of integers whose operation takes its own value and a number with a point: the types
-- have no letter in common, nothing is computed, and what the variable would have is a value that was not
-- written.
pub global_var_op-mixed :
    (mach : Machine) (vars : Globals) (var : GlobalVar) (opcode i n : ℕ)
    → opcode ≢ 0
    → var.op ≡ number_op opcode i type_double n
    → get_elem? vars i ≡ some var
    → var.type ≡ type_int
    → global_var_op mach vars var ≡ fault
unfolding global_var_op
global_var_op-mixed mach vars var opcode i n nz op at int =
    global_var_op_result mach vars var _ _ (ap (λ (o : Op). o.opcode == 0) op ∙ ne→== opcode 0 nz)
      (ap (perform_op mach vars) op ∙ perform_op-mixed mach vars var opcode i n at int)
