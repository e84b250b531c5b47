-- ===== src/Execute/Tables.antt =====
-- The tables of execute.c and global.c: what each operation keeps of their sizes.
use craftsman_console.Base.{
  ℕ, zero, suc, ◌≤◌, ◌≡◌, refl, ap, ◌∙◌, Bool-cases, inl, inr, List, [], ◌∷◌, Option, none, some,
  Option-cases, leb, length, length-set, length-append, length-replicate, set, replicate, arith,
}
use craftsman_console.Base.Int.{pos}
use craftsman_console.Global.{
  Address, global_value, Globals, GlobalVar, max_variable, global_init, global_get,
  global_get_or_create,
}
use craftsman_console.Dlfn.{noop, Functor, max_symbols}
use craftsman_console.Execute.Handles.{IsHandle, AllHandles, AllRows, AllRows-cleared}
use craftsman_console.Execute.{
  World, max_func, add_result_func, make_int, set_load_param, set_store_param, execute_init,
  zero_functor, copy_functor,
}

-- Each array has its size, as each row of handles has, the counts of what is used are within theirs, and each
-- handle is one.
pub record IsWithin (w : World) : Type 0 where
  pub vars : length w.globals ≤ max_variable
  pub functors : length w.result_func ≡ max_func
  pub used : w.used_result_func ≤ max_func
  pub results : length w.result ≡ max_symbols
  pub loads : length w.load_param_handle ≡ max_symbols
  pub saves : length w.save_result_handle ≡ max_symbols
  pub rows : AllRows w.load_param_handle
  pub save_handles : AllHandles w.save_result_handle
  pub functions : length w.functions ≤ max_symbols
  pub objects : length w.objects ≤ max_symbols
  pub hashes : length w.hash_objects ≡ max_symbols

-- The variables are others.
abbrev pub with_vars : Globals → World → World
with_vars vars w = record w { globals = vars }

pub with_vars-IsWithin :
    (vars : Globals) (w : World)
    → length vars ≤ max_variable
    → IsWithin w
    → IsWithin (with_vars vars w)
with_vars-IsWithin vars w few h = record {
  vars = few;
  functors = h.functors;
  used = h.used;
  results = h.results;
  loads = h.loads;
  saves = h.saves;
  rows = h.rows;
  save_handles = h.save_handles;
  functions = h.functions;
  objects = h.objects;
  hashes = h.hashes;
}

pub set_vars-IsWithin :
    (i : ℕ) (var : GlobalVar) (w : World)
    → IsWithin w
    → IsWithin (with_vars (set w.globals i var) w)
set_vars-IsWithin i var w h =
    with_vars-IsWithin (set w.globals i var) w (omega (arith, length-set w.globals i var, h.vars)) h

length-make_int : (i : ℕ) (vars : Globals) → length (make_int i vars) ≡ length vars
unfolding make_int
length-make_int zero [] = refl
length-make_int (suc i) [] = refl
length-make_int zero (var ∷ vars) = refl
length-make_int (suc i) (var ∷ vars) = ap suc (length-make_int i vars)

pub length-global_get_or_create :
    (name : List ℕ) (vars : Globals)
    → length vars ≤ max_variable
    → length (global_get_or_create name vars).1 ≤ max_variable
unfolding global_get_or_create
length-global_get_or_create name vars few = elim (Option-cases (global_get name vars)) [
  | inl e ↦ elim (Bool-cases (leb max_variable (length vars))) [
    | inl full ↦ rw (e, global_get_or_create, full) few
    | inr room ↦
        rw (e, global_get_or_create, room)
          (ground (arith, room, length-append vars (global_init name ∷ [])))
  ]
  | inr (i, e) ↦ rw (e, global_get_or_create) few
]

add_result_func-IsWithin : (f : Functor) (w : World) → IsWithin w → IsWithin (add_result_func f w).1
unfolding add_result_func
add_result_func-IsWithin f w h = elim (Bool-cases (leb max_func w.used_result_func)) [
  | inl full ↦ rw (add_result_func, full) h
  | inr room ↦
      rw (add_result_func, room)
        (record {
          vars = h.vars;
          functors = length-set w.result_func w.used_result_func f ∙ h.functors;
          used = ground (arith, room);
          results = h.results;
          loads = h.loads;
          saves = h.saves;
          rows = h.rows;
          save_handles = h.save_handles;
          functions = h.functions;
          objects = h.objects;
          hashes = h.hashes;
        })
]

-- What is returned is a handle.
add_result_func-IsHandle : (f : Functor) (w : World) → IsHandle (add_result_func f w).0
unfolding add_result_func
add_result_func-IsHandle f w = elim (Bool-cases (leb max_func w.used_result_func)) [
  | inl full ↦ rw (add_result_func, full) refl
  | inr room ↦ rw (add_result_func, room) (ground (arith, room))
]

pub set_load_param-IsHandle :
    (str : List ℕ) (p : Address) (w : World) → IsHandle (set_load_param str p w).0
unfolding set_load_param
set_load_param-IsHandle str p w = elim (Option-cases (global_get str w.globals)) [
  | inl e ↦ rw (set_load_param, e) (omega arith)
  | inr (i, e) ↦ rw (set_load_param, e) (add_result_func-IsHandle _ _)
]

stored-IsHandle :
    (str : List ℕ) (p : Address) (w : World) (found : Option ℕ × Globals)
    → global_get_or_create str w.globals ≡ found
    → IsHandle (set_store_param str p w).0
unfolding set_store_param
stored-IsHandle str p w (none, vars) e = rw (e, set_store_param) (omega arith)
stored-IsHandle str p w (some i, vars) e = rw (e, set_store_param) (add_result_func-IsHandle _ _)

pub set_store_param-IsHandle :
    (str : List ℕ) (p : Address) (w : World) → IsHandle (set_store_param str p w).0
set_store_param-IsHandle str p w = stored-IsHandle str p w (global_get_or_create str w.globals) refl

pub set_load_param-IsWithin :
    (str : List ℕ) (p : Address) (w : World) → IsWithin w → IsWithin (set_load_param str p w).1
unfolding set_load_param
set_load_param-IsWithin str p w h = elim (Option-cases (global_get str w.globals)) [
  | inl e ↦ rw (set_load_param, e) h
  | inr (i, e) ↦
      rw (set_load_param, e)
        (add_result_func-IsWithin _ (with_vars (make_int i w.globals) w) (
          with_vars-IsWithin (make_int i w.globals) w
            (omega (arith, length-make_int i w.globals, h.vars)) h))
]

stored-IsWithin :
    (str : List ℕ) (p : Address) (w : World) (found : Option ℕ × Globals)
    → global_get_or_create str w.globals ≡ found
    → length found.1 ≤ max_variable
    → IsWithin w
    → IsWithin (set_store_param str p w).1
unfolding set_store_param
stored-IsWithin str p w (none, vars) e few h =
    rw (e, set_store_param) (with_vars-IsWithin vars w few h)
stored-IsWithin str p w (some i, vars) e few h =
    rw (e, set_store_param)
      (add_result_func-IsWithin (copy_functor (global_value i) p) (with_vars (make_int i vars) w)
        (with_vars-IsWithin (make_int i vars) w (omega (arith, length-make_int i vars, few)) h))

pub set_store_param-IsWithin :
    (str : List ℕ) (p : Address) (w : World) → IsWithin w → IsWithin (set_store_param str p w).1
set_store_param-IsWithin str p w h =
    stored-IsWithin str p w (global_get_or_create str w.globals) refl
      (length-global_get_or_create str w.globals h.vars) h

-- What execute_init needs: it clears neither the variables, the library's tables and the hashes, nor the
-- handles of the results.
pub execute_init-IsWithin :
    (w : World)
    → length w.globals ≤ max_variable
    → length w.save_result_handle ≡ max_symbols
    → AllHandles w.save_result_handle
    → length w.functions ≤ max_symbols
    → length w.objects ≤ max_symbols
    → length w.hash_objects ≡ max_symbols
    → IsWithin (execute_init w)
unfolding execute_init
execute_init-IsWithin w few saved handles functions objects hashes =
    add_result_func-IsWithin (record zero_functor { call = noop })
      (record w {
        result = replicate max_symbols 0;
        result_func = replicate max_func zero_functor;
        used_result_func = 0;
        load_param_handle = replicate max_symbols (pos 0 ∷ pos 0 ∷ pos 0 ∷ []);
      })
      (record {
        vars = few;
        functors = length-replicate max_func zero_functor;
        used = omega arith;
        results = length-replicate max_symbols zero;
        loads = length-replicate max_symbols (pos 0 ∷ pos 0 ∷ pos 0 ∷ []);
        saves = saved;
        rows = AllRows-cleared max_symbols;
        save_handles = handles;
        functions = functions;
        objects = objects;
        hashes = hashes;
      })
