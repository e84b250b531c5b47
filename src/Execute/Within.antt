-- ===== src/Execute/Within.antt =====
-- The commands of execute.c and main.c's turn keep the tables within their arrays.
use craftsman_console.Base.{
  ℕ, zero, suc, ◌-◌, ◌≤◌, ◌≡◌, refl, ap, length-append, length-replicate, replicate, ◌∙◌, Bool, inl,
  inr, List, [], ◌∷◌, Option, none, some, Option-cases, length, length-set, get_elem?, set, arith,
  ok, or_fault, ◌>>=◌, Always, any-Always, known-Always,
}
use craftsman_console.Base.Int.{ℤ}
use craftsman_console.Global.{
  result_slot, Machine, Globals, max_variable, global_get, global_get_or_create,
}
use craftsman_console.Hash.{memhash, memhash_cont}
use craftsman_console.Dlfn.{Object, max_symbols, dlfn_get_symbol}
use craftsman_console.Execute.{World, set_store_param}
use craftsman_console.Execute.Commands.{
  command_tokens, hash_from, execute_hash, execute_variable, execute_result, execute_mutation,
}
use craftsman_console.Execute.Handles.{IsHandle, AllHandles-set}
use craftsman_console.Execute.Tables.{
  set_store_param-IsHandle, IsWithin, with_vars-IsWithin, set_vars-IsWithin,
  length-global_get_or_create, set_store_param-IsWithin,
}

with_saves-IsWithin :
    (sym : ℕ) (func : ℤ) (w : World)
    → IsHandle func
    → IsWithin w
    → IsWithin (record w { save_result_handle = set w.save_result_handle sym func })
with_saves-IsWithin sym func w handle h = record {
  vars = h.vars;
  functors = h.functors;
  used = h.used;
  results = h.results;
  loads = h.loads;
  saves = length-set w.save_result_handle sym func ∙ h.saves;
  rows = h.rows;
  save_handles = AllHandles-set w.save_result_handle sym func handle h.save_handles;
  functions = h.functions;
  objects = h.objects;
  hashes = h.hashes;
}

length-hash_from :
    (signed : Bool) (h : ℕ) (objects : List Object)
    → length (hash_from signed h objects) ≡ length objects
unfolding hash_from
length-hash_from signed h [] = refl
length-hash_from signed h (o ∷ objects) =
    ap suc (length-hash_from signed (memhash_cont signed h o.bytes) objects)

pub execute_hash-IsWithin :
    (signed : Bool) (w : World) → IsWithin w → IsWithin (execute_hash signed w)
unfolding execute_hash
execute_hash-IsWithin signed w h = record {
  vars = h.vars;
  functors = h.functors;
  used = h.used;
  results = h.results;
  loads = h.loads;
  saves = h.saves;
  rows = h.rows;
  save_handles = h.save_handles;
  functions = h.functions;
  objects = h.objects;
  hashes =
      length-append (hash_from signed (memhash signed []) w.objects)
        (replicate (max_symbols - length w.objects) 0)
      ∙ omega (
        arith,
        length-hash_from signed (memhash signed []) w.objects,
        length-replicate (max_symbols - length w.objects) zero,
        h.objects,
      );
}

-- A variable that is found or made, and the value that it is given.
variable_lem :
    (mach : Machine) (len : ℕ) (input : List ℕ) (w : World) (command name value : List ℕ)
    (others : List (List ℕ)) (found : Option ℕ × Globals)
    → command_tokens len input 3 ≡ ok (command ∷ name ∷ value ∷ others)
    → global_get_or_create name w.globals ≡ found
    → length found.1 ≤ max_variable
    → IsWithin w
    → Always IsWithin (execute_variable mach len input w)
unfolding execute_variable
variable_lem mach len input w command name value others (none, vars) e got few h =
    rw (e, execute_variable, ◌>>=◌) (rw got (with_vars-IsWithin vars w few h))
variable_lem mach len input w command name value others (some i, vars) e got few h =
    rw (e, execute_variable, ◌>>=◌)
      (rw got (
        any-Always IsWithin (or_fault (get_elem? vars i)) _
          (λ var. with_vars-IsWithin (set vars i _) w (omega (arith, length-set vars i _, few)) h)))

variables-IsWithin :
    (mach : Machine) (len : ℕ) (input : List ℕ) (w : World) (tokens : List (List ℕ))
    → command_tokens len input 3 ≡ ok tokens
    → IsWithin w
    → Always IsWithin (execute_variable mach len input w)
unfolding execute_variable
variables-IsWithin mach len input w [] e h = rw (e, execute_variable, ◌>>=◌) h
variables-IsWithin mach len input w (command ∷ []) e h = rw (e, execute_variable, ◌>>=◌) h
variables-IsWithin mach len input w (command ∷ name ∷ []) e h = rw (e, execute_variable, ◌>>=◌) h
variables-IsWithin mach len input w (command ∷ name ∷ value ∷ others) e h =
    variable_lem mach len input w command name value others (global_get_or_create name w.globals) e
      refl (length-global_get_or_create name w.globals h.vars) h

pub execute_variable-IsWithin :
    (mach : Machine) (len : ℕ) (input : List ℕ) (w : World)
    → IsWithin w
    → Always IsWithin (execute_variable mach len input w)
unfolding execute_variable
execute_variable-IsWithin mach len input w h =
    known-Always IsWithin (command_tokens len input 3) _
      (λ tokens e. variables-IsWithin mach len input w tokens e h)

results-IsWithin :
    (len : ℕ) (input : List ℕ) (w : World) (tokens : List (List ℕ))
    → command_tokens len input 3 ≡ ok tokens
    → IsWithin w
    → Always IsWithin (execute_result len input w)
unfolding execute_result
results-IsWithin len input w [] e h = rw (e, execute_result, ◌>>=◌) h
results-IsWithin len input w (command ∷ []) e h = rw (e, execute_result, ◌>>=◌) h
results-IsWithin len input w (command ∷ function ∷ []) e h = rw (e, execute_result, ◌>>=◌) h
results-IsWithin len input w (command ∷ function ∷ variable ∷ others) e h =
    elim (Option-cases (dlfn_get_symbol function w.functions)) [
      | inl none_there ↦ rw (e, execute_result, ◌>>=◌) (rw none_there h)
      | inr (sym, there) ↦
          rw (e, execute_result, ◌>>=◌)
            (rw there (
              with_saves-IsWithin sym _ (set_store_param variable (result_slot sym) w).1
                (set_store_param-IsHandle variable (result_slot sym) w)
                (set_store_param-IsWithin variable (result_slot sym) w h)))
    ]

pub execute_result-IsWithin :
    (len : ℕ) (input : List ℕ) (w : World)
    → IsWithin w
    → Always IsWithin (execute_result len input w)
unfolding execute_result
execute_result-IsWithin len input w h =
    known-Always IsWithin (command_tokens len input 3) _
      (λ tokens e. results-IsWithin len input w tokens e h)

mutations-IsWithin :
    (mach : Machine) (len : ℕ) (input : List ℕ) (w : World) (tokens : List (List ℕ))
    → command_tokens len input 4 ≡ ok tokens
    → IsWithin w
    → Always IsWithin (execute_mutation mach len input w)
unfolding execute_mutation
mutations-IsWithin mach len input w [] e h = rw (e, execute_mutation, ◌>>=◌) h
mutations-IsWithin mach len input w (command ∷ []) e h = rw (e, execute_mutation, ◌>>=◌) h
mutations-IsWithin mach len input w (command ∷ lhs ∷ []) e h = rw (e, execute_mutation, ◌>>=◌) h
mutations-IsWithin mach len input w (command ∷ lhs ∷ operator ∷ []) e h =
    rw (e, execute_mutation, ◌>>=◌) h
mutations-IsWithin mach len input w (command ∷ lhs ∷ operator ∷ rhs ∷ others) e h =
    elim (Option-cases (global_get lhs w.globals)) [
      | inl none_there ↦ rw (e, execute_mutation, ◌>>=◌) (rw none_there h)
      | inr (i, there) ↦
          rw (e, execute_mutation, ◌>>=◌)
            (rw there (
              any-Always IsWithin (or_fault (get_elem? w.globals i)) _
                (λ var. set_vars-IsWithin i _ w h)))
    ]

pub execute_mutation-IsWithin :
    (mach : Machine) (len : ℕ) (input : List ℕ) (w : World)
    → IsWithin w
    → Always IsWithin (execute_mutation mach len input w)
unfolding execute_mutation
execute_mutation-IsWithin mach len input w h =
    known-Always IsWithin (command_tokens len input 4) _
      (λ tokens e. mutations-IsWithin mach len input w tokens e h)
