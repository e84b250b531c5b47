-- ===== src/Turn/Prompt.antt =====
-- main.c: the prompt.
use craftsman_console.Base.{ℕ, List, [], ◌∷◌, ◌++◌, ◌==◌, if◌then◌else◌}
use craftsman_console.Print.{number, Printed, printf, puts}
use craftsman_console.Global.{Machine}
use craftsman_console.Global.Print.{global_var_print}
use craftsman_console.Dlfn.{Code}
use craftsman_console.Dlfn.Print.{dlfn_print_functions, dlfn_print_objects}
use craftsman_console.Execute.{World}

-- Where a function's code is, is an argument.
unfoldable pub prompt : Machine → (Code → ℕ) → World → ℕ → List Printed
unfolding global_var_print dlfn_print_functions dlfn_print_objects
prompt mach address_of w player_count =
    dlfn_print_functions address_of w.functions
    ++ (dlfn_print_objects w.objects
        ++ (global_var_print mach w.globals
            ++ (puts
                  "--Commands--\nImmediate\n (!l)oop_info (!q)uit (!r)eload (!...)prompt \nSynchronized \n (b)enchmark (c)ondition (h)ash (m)utation (o)bject (p)arameter (r)esult (s)imulation (v)ariable >"
                ∷ (if player_count == 0
                    then []
                    else printf "Connected player count: %d\n" (number player_count ∷ []) ∷ []))))
