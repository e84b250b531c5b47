-- ===== src/Execute/Parameters.antt =====
-- What the command that sets parameters keeps of the sizes of the tables.
use craftsman_console.Base.{
  ℕ, zero, suc, ◌+◌, ◌≡◌, ◌∙◌, Bool, true, false, Bool-cases, inl, inr, List, [], ◌∷◌, Option-cases,
  ◌==◌, if◌then◌else◌, length, length-set, get_elem?, ok, or_fault, ◌>>=◌, Always, bind-Always,
  any-Always, known-Always,
}
use craftsman_console.Base.Int.{ℤ}
use craftsman_console.Global.{function_param, Machine}
use craftsman_console.Dlfn.{param_count, strcmp_eq}
use craftsman_console.Execute.{World, set_value_param, set_load_param}
use craftsman_console.Execute.Commands.{
  command_tokens, is_positive, set_handle, parameter_at, parameters_from, functions_from,
  first_byte, execute_parameter,
}
use craftsman_console.Execute.Handles.{IsHandle, AllRows-set_handle}
use craftsman_console.Execute.Tables.{IsWithin, set_load_param-IsHandle, set_load_param-IsWithin}
use craftsman_console.Execute.Invoked.{write_at-IsWithin}

with_loads-IsWithin :
    (fi pi : ℕ) (func : ℤ) (w : World)
    → IsHandle func
    → IsWithin w
    → IsWithin (record w { load_param_handle = set_handle fi pi func w.load_param_handle })
with_loads-IsWithin fi pi func w handle h = record {
  vars = h.vars;
  functors = h.functors;
  used = h.used;
  results = h.results;
  loads = length-set w.load_param_handle fi _ ∙ h.loads;
  saves = h.saves;
  rows = AllRows-set_handle fi pi func w.load_param_handle handle h.rows;
  save_handles = h.save_handles;
  functions = h.functions;
  objects = h.objects;
  hashes = h.hashes;
}

parameter_at-IsWithin :
    (mach : Machine) (fi pi : ℕ) (str : List ℕ) (w : World)
    → IsWithin w
    → Always IsWithin (parameter_at mach fi pi str w)
unfolding parameter_at
parameter_at-IsWithin mach fi pi str w h =
    let loaded = set_load_param str (function_param fi pi) w in
    let bound =
      with_loads-IsWithin fi pi loaded.0 loaded.1
        (set_load_param-IsHandle str (function_param fi pi) w)
        (set_load_param-IsWithin str (function_param fi pi) w h) in
    elim (Bool-cases (is_positive loaded.0)) [
      | inl e ↦ rw (parameter_at, e) bound
      | inr e ↦
          rw (parameter_at, e)
            (write_at-IsWithin mach (function_param fi pi) (set_value_param mach str).1 _ bound)
    ]

parameters_from-IsWithin :
    (mach : Machine) (left fi pi : ℕ) (tokens : List (List ℕ)) (w : World)
    → IsWithin w
    → Always IsWithin (parameters_from mach left fi pi tokens w)
unfolding parameters_from
parameters_from-IsWithin mach zero fi pi tokens w h = h
parameters_from-IsWithin mach (suc left) fi pi tokens w h =
    elim (Option-cases (get_elem? tokens (pi + 2))) [
      | inl e ↦ rw (parameters_from, e) h
      | inr (str, e) ↦
          rw (parameters_from, e)
            (bind-Always IsWithin IsWithin (parameter_at mach fi pi str w) _
              (parameter_at-IsWithin mach fi pi str w h)
              (parameters_from-IsWithin mach left fi (pi + 1) tokens))
    ]

functions_from-IsWithin :
    (mach : Machine) (left fi : ℕ) (filter : List ℕ) (tokens : List (List ℕ)) (w : World)
    → IsWithin w
    → Always IsWithin (functions_from mach left fi filter tokens w)
unfolding functions_from
functions_from-IsWithin mach zero fi filter tokens w h = h
functions_from-IsWithin mach (suc left) fi filter tokens w h =
    any-Always IsWithin (or_fault (get_elem? w.functions fi)) _ (λ f.
      bind-Always IsWithin IsWithin
        (if (if first_byte filter == b'*' then true else strcmp_eq filter f.name)
          then parameters_from mach param_count fi 0 tokens w
          else ok w)
        _ (chosen (if first_byte filter == b'*' then true else strcmp_eq filter f.name))
        (functions_from-IsWithin mach left (fi + 1) filter tokens))
  where
    chosen :
        (b : Bool)
        → Always IsWithin (if b then parameters_from mach param_count fi 0 tokens w else ok w)
    chosen true = parameters_from-IsWithin mach param_count fi 0 tokens w h
    chosen false = h

parameters-IsWithin :
    (mach : Machine) (len : ℕ) (input : List ℕ) (w : World) (tokens : List (List ℕ))
    → command_tokens len input 6 ≡ ok tokens
    → IsWithin w
    → Always IsWithin (execute_parameter mach len input w)
unfolding execute_parameter
parameters-IsWithin mach len input w [] e h = rw (e, execute_parameter, ◌>>=◌) h
parameters-IsWithin mach len input w (command ∷ []) e h = rw (e, execute_parameter, ◌>>=◌) h
parameters-IsWithin mach len input w (command ∷ filter ∷ params) e h =
    rw (e, execute_parameter, ◌>>=◌)
      (functions_from-IsWithin mach (length w.functions) 0 filter (command ∷ filter ∷ params) w h)

pub execute_parameter-IsWithin :
    (mach : Machine) (len : ℕ) (input : List ℕ) (w : World)
    → IsWithin w
    → Always IsWithin (execute_parameter mach len input w)
unfolding execute_parameter
execute_parameter-IsWithin mach len input w h =
    known-Always IsWithin (command_tokens len input 6) _
      (λ tokens e. parameters-IsWithin mach len input w tokens e h)
