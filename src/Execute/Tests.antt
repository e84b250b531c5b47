-- ===== src/Execute/Tests.antt =====
-- The theorems on execute.c's copies in a concrete world.
use craftsman_console.Base.{
  ℕ, ◌≡◌, refl, inl, false, [], ◌∷◌, some, arith, set, replicate, get_elem?, ok, fault,
}
use craftsman_console.Base.Int.{pos}
use craftsman_console.Global.{result_slot, word, Machine, GlobalVar, type_int, global_get_or_create}
use craftsman_console.Global.Tests.{speed, speed-IsShort}
use craftsman_console.Dlfn.{max_symbols}
use craftsman_console.Execute.{
  World, max_func, zero_functor, set_store_param, execute_init, call_load_param, call_store_result,
}
use craftsman_console.Execute.Results.{
  execute_init-handles, IsSized, bind_result, with_result, set_store_param-copies,
}

-- A machine; nothing here looks at its floating point.
abbrev pub machine : Machine
machine = record {
  doubles = record {
    add = λ a b. 0;
    sub = λ a b. 0;
    less = λ a b. false;
    of_int = λ n. 0;
    truncate = λ d. 0;
    strtod = λ s. 0;
  };
  layout = λ a. 0;
}

-- A world whose function 4 has its result stored by functor 1.
abbrev pub world : World
world = record {
  globals = [];
  functions = [];
  objects = [];
  load_param_handle = replicate max_symbols (pos 0 ∷ pos 0 ∷ pos 0 ∷ []);
  save_result_handle = set (replicate max_symbols (pos 0)) 4 (pos 1);
  result_func = replicate max_func zero_functor;
  used_result_func = 1;
  result = replicate max_symbols 0;
  hash_objects = replicate max_symbols 0;
}

reload :
    (call_load_param machine 0 (execute_init world) ≡ ok (execute_init world))
    × (call_store_result machine 4 (execute_init world) ≡ fault)
reload = execute_init-handles machine world 0 4 0 (omega arith) refl (omega arith)

world-IsSized : IsSized world
world-IsSized = record { functors = refl; results = refl; saves = refl }

store_in_speed :
    (i : ℕ) × (w' : World) × (var : GlobalVar) × ((global_get_or_create speed []).0 ≡ some i)
    × (call_store_result machine 3
          (with_result 3 42 (bind_result 3 (set_store_param speed (result_slot 3) world)))
        ≡ ok w')
    × (get_elem? w'.globals i ≡ some var)
    × (var.value ≡ word 42)
    × (var.type ≡ type_int)
store_in_speed =
    set_store_param-copies machine world speed 3 42 speed-IsShort (inl (omega arith)) world-IsSized
      (omega arith) (omega arith)
