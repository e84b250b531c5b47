-- ===== src/Execute/Invoked.antt =====
-- What the copies and the operations on variables of a frame keep of the sizes of the tables.
use craftsman_console.Base.{
  arith, ℕ, zero, suc, ◌+◌, ◌≡◌, refl, ◌∙◌, List, [], ◌∷◌, length, length-set, get_elem?, set,
  or_fault, Always, bind-Always, any-Always,
}
use craftsman_console.Base.Int.{ℤ, pos, negsuc}
use craftsman_console.Global.{
  Address, global_var, global_value, function_param, result_slot, Param, word, address, Machine,
  Globals, global_var_op, global_var_ops_from, global_var_ops,
}
use craftsman_console.Dlfn.{Code, null, noop, copy, library}
use craftsman_console.Execute.{
  World, read_at, write_at, copy_param, invoke_in, invoke_result_func, invoke_all, call_load_param,
  call_store_result,
}
use craftsman_console.Execute.Tables.{IsWithin, set_vars-IsWithin}

pub write_at-IsWithin :
    (mach : Machine) (p : Address) (v : Param) (w : World)
    → IsWithin w
    → Always IsWithin (write_at mach p v w)
unfolding write_at
write_at-IsWithin mach (global_var i) v w h = tt
write_at-IsWithin mach (global_value i) v w h =
    any-Always IsWithin (or_fault (get_elem? w.globals i)) _ (λ var. set_vars-IsWithin i _ w h)
write_at-IsWithin mach (function_param f p) v w h =
    any-Always IsWithin (or_fault (get_elem? w.functions f)) _ (λ fn. record {
      vars = h.vars;
      functors = h.functors;
      used = h.used;
      results = h.results;
      loads = h.loads;
      saves = h.saves;
      rows = h.rows;
      save_handles = h.save_handles;
      functions = omega (arith, length-set w.functions f _, h.functions);
      objects = h.objects;
      hashes = h.hashes;
    })
write_at-IsWithin mach (result_slot i) v w h = record {
  vars = h.vars;
  functors = h.functors;
  used = h.used;
  results = length-set w.result i _ ∙ h.results;
  loads = h.loads;
  saves = h.saves;
  rows = h.rows;
  save_handles = h.save_handles;
  functions = h.functions;
  objects = h.objects;
  hashes = h.hashes;
}

copy_param-IsWithin :
    (mach : Machine) (dst src : Param) (w : World)
    → IsWithin w
    → Always IsWithin (copy_param mach dst src w)
unfolding copy_param
copy_param-IsWithin mach (address dst) (address src) w h =
    any-Always IsWithin (read_at src w) _ (λ v. write_at-IsWithin mach dst v w h)
copy_param-IsWithin mach (address dst) (word n) w h = tt
copy_param-IsWithin mach (word n) src w h = tt

invoke_in-IsWithin :
    (mach : Machine) (code : Code) (params : List Param) (w : World)
    → IsWithin w
    → Always IsWithin (invoke_in mach code params w)
unfolding invoke_in
invoke_in-IsWithin mach null params w h = tt
invoke_in-IsWithin mach noop params w h = h
invoke_in-IsWithin mach copy [] w h = tt
invoke_in-IsWithin mach copy (dst ∷ []) w h = tt
invoke_in-IsWithin mach copy (dst ∷ src ∷ params) w h = copy_param-IsWithin mach dst src w h
invoke_in-IsWithin mach (library n) params w h = tt

invoke_result_func-IsWithin :
    (mach : Machine) (func : ℤ) (w : World)
    → IsWithin w
    → Always IsWithin (invoke_result_func mach func w)
unfolding invoke_result_func
invoke_result_func-IsWithin mach (negsuc n) w h = tt
invoke_result_func-IsWithin mach (pos i) w h =
    any-Always IsWithin (or_fault (get_elem? w.result_func i)) _
      (λ f. invoke_in-IsWithin mach f.call f.param w h)

invoke_all-IsWithin :
    (mach : Machine) (funcs : List ℤ) (w : World)
    → IsWithin w
    → Always IsWithin (invoke_all mach funcs w)
unfolding invoke_all
invoke_all-IsWithin mach [] w h = h
invoke_all-IsWithin mach (func ∷ funcs) w h =
    bind-Always IsWithin IsWithin (invoke_result_func mach func w) (invoke_all mach funcs)
      (invoke_result_func-IsWithin mach func w h) (invoke_all-IsWithin mach funcs)

pub call_load_param-IsWithin :
    (mach : Machine) (i : ℕ) (w : World) → IsWithin w → Always IsWithin (call_load_param mach i w)
unfolding call_load_param
call_load_param-IsWithin mach i w h =
    any-Always IsWithin (or_fault (get_elem? w.load_param_handle i)) _
      (λ funcs. invoke_all-IsWithin mach funcs w h)

pub call_store_result-IsWithin :
    (mach : Machine) (i : ℕ) (w : World) → IsWithin w → Always IsWithin (call_store_result mach i w)
unfolding call_store_result
call_store_result-IsWithin mach i w h =
    any-Always IsWithin (or_fault (get_elem? w.save_result_handle i)) _
      (λ func. invoke_result_func-IsWithin mach func w h)

length-global_var_ops_from :
    (left i : ℕ) (mach : Machine) (vars : Globals) (n : ℕ)
    → length vars ≡ n
    → Always (λ vars'. length vars' ≡ n) (global_var_ops_from left i mach vars)
unfolding global_var_ops_from
length-global_var_ops_from zero i mach vars n e = e
length-global_var_ops_from (suc left) i mach vars n e =
    any-Always (λ vars'. length vars' ≡ n) (or_fault (get_elem? vars i)) _
      (λ var.
        any-Always (λ vars'. length vars' ≡ n) (global_var_op mach vars var) _
          (λ var'.
            length-global_var_ops_from left (i + 1) mach (set vars i var') n
              (length-set vars i var' ∙ e)))

pub length-global_var_ops :
    (mach : Machine) (vars : Globals)
    → Always (λ vars'. length vars' ≡ length vars) (global_var_ops mach vars)
unfolding global_var_ops
length-global_var_ops mach vars =
    length-global_var_ops_from (length vars) 0 mach vars (length vars) refl
