-- ===== src/Execute.antt =====
-- execute.c: the state that the commands of a frame change, and the copies between variables,
-- parameters and results that a frame's calls make.

pub mod Commands
pub mod Handles
pub mod Tables
pub mod Invoked
pub mod Parameters
pub mod Within
pub mod Benchmark
pub mod Results
pub mod Hashes
pub mod Tokens
pub mod Tests
use craftsman_console.Base.{
  ℕ, zero, suc, ◌+◌, ◌*◌, Bool, true, false, ◌||◌, List, [], ◌∷◌, ◌++◌, Option, none, some, leb,
  ◌==◌, if◌then◌else◌, length, get_elem?, set, replicate, Outcome, ok, fault, or_fault, ◌>>=◌,
}
use craftsman_console.Base.Int.{ℤ, pos, negsuc}
use craftsman_console.Number.{Doubles, strtol, contains}
use craftsman_console.Global.{
  Address, global_var, global_value, function_param, result_slot, Param, word, address, Machine,
  word_of, GlobalVar, Globals, type_int, type_double, global_get, global_get_or_create,
}
use craftsman_console.Dlfn.{
  Code, null, noop, copy, library, Functor, Function, Object, max_symbols, param_count,
}

abbrev pub max_func : ℕ
max_func = max_symbols * param_count

-- The statics of execute.c, with the tables of global.c and dlfn.c that it uses. `result_func` is the
-- array of `MAX_FUNC` functors, of which `used_result_func` are in use.
pub record World : Type 0 where
  pub globals : Globals
  pub functions : List Function
  pub objects : List Object
  pub load_param_handle : List (List ℤ)
  pub save_result_handle : List ℤ
  pub result_func : List Functor
  pub used_result_func : ℕ
  pub result : List ℕ
  pub hash_objects : List ℕ

abbrev pub zero_functor : Functor
zero_functor = record { call = null; param = word 0 ∷ word 0 ∷ word 0 ∷ [] }

-- The index is -1 for a full table.
unfoldable pub add_result_func : Functor → World → ℤ × World
add_result_func fnctor w = if leb max_func w.used_result_func then (negsuc 0, w) else (
  pos w.used_result_func,
  record w {
    result_func = set w.result_func w.used_result_func fnctor;
    used_result_func = w.used_result_func + 1;
  },
)

-- The type, and the value that is stored.
unfoldable pub set_value_param : Machine → List ℕ → ℕ × Param
unfolding strtol contains
set_value_param mach str_value =
    if contains b'.' str_value || contains b'e' str_value
    then (type_double, word (mach.doubles.strtod str_value))
    else (type_int, word (strtol str_value))

-- `var->type = 'i'` for the variable at an index
unfoldable pub make_int : ℕ → Globals → Globals
make_int zero [] = []
make_int (suc i) [] = []
make_int zero (var ∷ vars) = record var { type = type_int } ∷ vars
make_int (suc i) (var ∷ vars) = var ∷ make_int i vars

abbrev pub copy_functor : Address → Address → Functor
copy_functor dst src = record { call = copy; param = address dst ∷ address src ∷ word 0 ∷ [] }

-- `p` is where the parameter is.
unfoldable pub set_load_param : List ℕ → Address → World → ℤ × World
unfolding global_get make_int add_result_func
set_load_param str_value p w = elim (global_get str_value w.globals) [
  | none ↦ (pos 0, w)
  | some i ↦
      add_result_func (copy_functor p (global_value i))
        (record w { globals = make_int i w.globals })
]

unfoldable pub set_store_param : List ℕ → Address → World → ℤ × World
unfolding global_get_or_create make_int add_result_func
set_store_param str_value result_ptr w = stored (global_get_or_create str_value w.globals)
  where
    stored : Option ℕ × Globals → ℤ × World
    stored (none, vars) = (pos 0, record w { globals = vars })
    stored (some i, vars) =
        add_result_func (copy_functor (global_value i) result_ptr)
          (record w { globals = make_int i vars })

-- `save_result_handle` is not among the arrays that are cleared.
unfoldable pub execute_init : World → World
unfolding add_result_func
execute_init w =
    (add_result_func (record zero_functor { call = noop })
      (record w {
        result = replicate max_symbols 0;
        result_func = replicate max_func zero_functor;
        used_result_func = 0;
        load_param_handle = replicate max_symbols (pos 0 ∷ pos 0 ∷ pos 0 ∷ []);
      })).1

-- What is read through a pointer to a `Param_t` or a `size_t`.
unfoldable pub read_at : Address → World → Outcome Param
read_at (global_var i) w = fault
read_at (global_value i) w = or_fault (get_elem? w.globals i) >>= λ var. ok var.value
read_at (function_param f p) w =
    or_fault (get_elem? w.functions f) >>= λ fn. or_fault (get_elem? fn.fnctor.param p)
read_at (result_slot i) w = or_fault (get_elem? w.result i) >>= λ n. ok (word n)

-- What is written through it.
unfoldable pub write_at : Machine → Address → Param → World → Outcome World
write_at mach (global_var i) v w = fault
write_at mach (global_value i) v w = or_fault (get_elem? w.globals i) >>= λ var.
    ok (record w { globals = set w.globals i (record var { value = v }) })
write_at mach (function_param f p) v w = or_fault (get_elem? w.functions f) >>= λ fn. ok (record w {
  functions =
      set w.functions f
        (record fn { fnctor = record fn.fnctor { param = set fn.fnctor.param p v } });
})
write_at mach (result_slot i) v w = ok (record w { result = set w.result i (word_of mach v) })

-- `*dst = *src`
unfoldable pub copy_param : Machine → Param → Param → World → Outcome World
unfolding read_at write_at
copy_param mach (address dst) (address src) w = read_at src w >>= λ v. write_at mach dst v w
copy_param mach _ _ w = fault

-- `functor_invoke` on a functor of `result_func`, which holds no function of the library.
unfoldable pub invoke_in : Machine → Code → List Param → World → Outcome World
unfolding copy_param
invoke_in mach noop params w = ok w
invoke_in mach copy (dst ∷ src ∷ params) w = copy_param mach dst src w
invoke_in mach _ params w = fault

-- `functor_invoke(result_func[func])`
unfoldable pub invoke_result_func : Machine → ℤ → World → Outcome World
unfolding invoke_in
invoke_result_func mach (negsuc n) w = fault
invoke_result_func mach (pos i) w =
    or_fault (get_elem? w.result_func i) >>= λ f. invoke_in mach f.call f.param w

-- The loop of `call_load_param` over the handles of a function.
unfoldable pub invoke_all : Machine → List ℤ → World → Outcome World
unfolding invoke_result_func
invoke_all mach [] w = ok w
invoke_all mach (func ∷ funcs) w = invoke_result_func mach func w >>= invoke_all mach funcs

unfoldable pub call_load_param : Machine → ℕ → World → Outcome World
unfolding invoke_all
call_load_param mach symbol_offset w =
    or_fault (get_elem? w.load_param_handle symbol_offset) >>= λ funcs. invoke_all mach funcs w

unfoldable pub call_store_result : Machine → ℕ → World → Outcome World
unfolding invoke_result_func
call_store_result mach symbol_offset w =
    or_fault (get_elem? w.save_result_handle symbol_offset) >>= λ func.
    invoke_result_func mach func w
