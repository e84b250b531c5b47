-- ===== src/Execute/Results.antt =====
-- The copies that execute.c makes around each call: results into variables, variables into parameters.
use craftsman_console.Base.{
  ℕ, zero, suc, ◌+◌, ◌<◌, ◌≡◌, ◌≢◌, refl, ap, ap₂, sym, ◌∙◌, ◌⊎◌, false, List, [], ◌∷◌, some, none,
  arith, leb, ==_refl, length, get_elem?, get_elem?-set, get_elem?-some, get_elem?-replicate, set,
  replicate, ok, fault,
}
use craftsman_console.Base.Int.{ℤ, pos}
use craftsman_console.Global.{
  global_value, result_slot, word, Machine, GlobalVar, Globals, type_int, max_variable, global_get,
  global_get_or_create,
}
use craftsman_console.Global.Lookup.{IsShort, get_or_create-found}
use craftsman_console.Dlfn.{noop, Functor, max_symbols}
use craftsman_console.Execute.{
  World, max_func, zero_functor, copy_functor, add_result_func, make_int, set_store_param,
  execute_init, invoke_result_func, call_load_param, call_store_result,
}

-- Behind the first functor of a cleared table every one is null.
cleared :
    (n k : ℕ) (f : Functor)
    → k < n
    → get_elem? (set (replicate (suc n) zero_functor) 0 f) (suc k) ≡ some zero_functor
cleared n k f h = get_elem?-replicate n k zero_functor h

-- After `execute_init` the parameters of any function are loaded without a change. A function whose
-- result was bound to a functor other than the first is still bound to it, though it is gone: the
-- call goes through a null pointer.
pub execute_init-handles :
    (mach : Machine) (w : World) (i j k : ℕ)
    → i < max_symbols
    → get_elem? w.save_result_handle j ≡ some (pos (suc k))
    → suc k < max_func
    → (call_load_param mach i (execute_init w) ≡ ok (execute_init w))
      × (call_store_result mach j (execute_init w) ≡ fault)
unfolding execute_init call_load_param call_store_result
execute_init-handles mach w i j k h e small = (
  rw (get_elem?-replicate max_symbols i (pos 0 ∷ pos 0 ∷ pos 0 ∷ []) h),
  rw (e, cleared 95 k (record zero_functor { call = noop }) (omega arith)),
)

get_elem?-make_int :
    (i : ℕ) (vars : Globals) {var : GlobalVar}
    → get_elem? vars i ≡ some var
    → get_elem? (make_int i vars) i ≡ some (record var { type = type_int })
unfolding make_int
get_elem?-make_int i [] e = cc
get_elem?-make_int zero (v ∷ vars) e = ground arith
get_elem?-make_int (suc i) (v ∷ vars) e = get_elem?-make_int i vars e

-- The arrays have their sizes.
pub record IsSized (w : World) : Type 0 where
  pub functors : length w.result_func ≡ max_func
  pub results : length w.result ≡ max_symbols
  pub saves : length w.save_result_handle ≡ max_symbols

-- A copy's functor, once it is in the table, copies.
invoke-copy :
    (mach : Machine) (w : World) (i v : ℕ) (dst : ℕ) (src : ℕ) (var : GlobalVar)
    → get_elem? w.result_func i ≡ some (copy_functor (global_value dst) (result_slot src))
    → get_elem? w.result src ≡ some v
    → get_elem? w.globals dst ≡ some var
    → invoke_result_func mach (pos i) w
      ≡ ok (record w { globals = set w.globals dst (record var { value = word v }) })
unfolding invoke_result_func
invoke-copy mach w i v dst src var f r g = rw (f, r, g)

-- `execute_result`'s last two lines, for function `sym`.
abbrev pub bind_result : ℕ → ℤ × World → World
bind_result sym (func, w) = record w { save_result_handle = set w.save_result_handle sym func }

-- a function's result
abbrev pub with_result : ℕ → ℕ → World → World
with_result sym v w = record w { result = set w.result sym v }

-- The world once function `func`'s result is bound to variable `i` of `vars`.
abbrev pub bound : World → ℕ → ℕ → Globals → World
bound w func i vars = record w {
  globals = make_int i vars;
  result_func =
      set w.result_func w.used_result_func (copy_functor (global_value i) (result_slot func));
  used_result_func = w.used_result_func + 1;
}

-- That world after a call of the function gave `v`.
abbrev pub after : World → ℕ → ℕ → ℕ → Globals → GlobalVar → World
after w func i v vars var =
    record (with_result func v (bind_result func (pos w.used_result_func, bound w func i vars))) {
      globals = set (make_int i vars) i (record var { value = word v });
    }

call_store_result-bound :
    (mach : Machine) (w : World) (func i v : ℕ) (vars : Globals) (var : GlobalVar)
    → (save : ℤ) (g : Functor) (r : ℕ) → get_elem? w.save_result_handle func ≡ some save
    → get_elem? w.result_func w.used_result_func ≡ some g
    → get_elem? w.result func ≡ some r
    → get_elem? (make_int i vars) i ≡ some var
    → call_store_result mach func
        (with_result func v (bind_result func (pos w.used_result_func, bound w func i vars)))
      ≡ ok (after w func i v vars var)
unfolding call_store_result
call_store_result-bound mach w func i v vars var save g r at_save at_g at_r at_var = rw saved (
    invoke-copy mach
      (with_result func v (bind_result func (pos w.used_result_func, bound w func i vars)))
      w.used_result_func v i func var functor result at_var)
  where
    saved :
        get_elem? (set w.save_result_handle func (pos w.used_result_func)) func
        ≡ some (pos w.used_result_func)
    saved = get_elem?-set w.save_result_handle func func _ save at_save ∙ rw (==_refl func)

    functor :
        get_elem? (bound w func i vars).result_func w.used_result_func
        ≡ some (copy_functor (global_value i) (result_slot func))
    functor =
        get_elem?-set w.result_func w.used_result_func w.used_result_func _ g at_g
        ∙ rw (==_refl w.used_result_func)

    result : get_elem? (set w.result func v) func ≡ some v
    result = get_elem?-set w.result func func _ r at_r ∙ rw (==_refl func)

set_store_param_lem :
    (w : World) (name : List ℕ) (sym i : ℕ) (vars : Globals)
    → global_get_or_create name w.globals ≡ (some i, vars)
    → w.used_result_func < max_func
    → set_store_param name (result_slot sym) w ≡ (
      pos w.used_result_func,
      record w {
        globals = make_int i vars;
        result_func =
            set w.result_func w.used_result_func (copy_functor (global_value i) (result_slot sym));
        used_result_func = w.used_result_func + 1;
      },
    )
unfolding set_store_param add_result_func
set_store_param_lem w name sym i vars e room = rw (e, set_store_param) (rw (full w room))
  where
    full : (w : World) → w.used_result_func < max_func → leb max_func w.used_result_func ≡ false
    full w h = ground arith

-- Where a function's result has just been bound to a variable whose name fits its field, and the function's
-- next call gives a result with nothing else changed in between, the copy behind the call stores that result in
-- the variable, which is then an integer, whatever it was before it was bound. The arrays have their
-- sizes, the table of variables has the variable or room for it, and the table of functors has room.
pub set_store_param-copies :
    (mach : Machine) (w : World) (name : List ℕ) (sym v : ℕ)
    → IsShort name
    → (length w.globals < max_variable) ⊎ (global_get name w.globals ≢ none)
    → IsSized w
    → w.used_result_func < max_func
    → sym < max_symbols
    → (i : ℕ) × (w' : World) × (var : GlobalVar) × ((global_get_or_create name w.globals).0
        ≡ some i)
      × (call_store_result mach sym
            (with_result sym v (bind_result sym (set_store_param name (result_slot sym) w)))
          ≡ ok w')
      × (get_elem? w'.globals i ≡ some var)
      × (var.value ≡ word v)
      × (var.type ≡ type_int)
unfolding call_store_result
set_store_param-copies mach w name sym v s enough sized room small =
    let created = global_get_or_create name w.globals in
    let (i, e, inside, found, rest) = get_or_create-found name w.globals s enough in
    let (old, at_i) = get_elem?-some created.1 i inside in
    let f = copy_functor (global_value i) (result_slot sym) in
    let (save, at_save) = get_elem?-some w.save_result_handle sym (omega (arith, sized.saves)) in
    let (g, at_g) =
      get_elem?-some w.result_func w.used_result_func (omega (arith, sized.functors)) in
    let (r, at_r) = get_elem?-some w.result sym (omega (arith, sized.results)) in
    let stored : set_store_param name (result_slot sym) w
        ≡ (pos w.used_result_func, bound w sym i created.1) =
      set_store_param_lem w name sym i created.1 (ap₂ (λ a b. (a, b)) e refl) room in
    let called =
      call_store_result-bound mach w sym i v created.1 (record old { type = type_int }) save g r
        at_save at_g at_r (get_elem?-make_int i created.1 at_i) in
    (
      i,
      after w sym i v created.1 (record old { type = type_int }),
      record old { type = type_int; value = word v },
      e,
      ap (λ p. call_store_result mach sym (with_result sym v (bind_result sym p))) stored ∙ called,
      get_elem?-set (make_int i created.1) i i _ _ (get_elem?-make_int i created.1 at_i)
          ∙ rw (==_refl i),
      refl,
      refl,
    )
