-- ===== src/Global/Print.antt =====
-- global.c: what is printed of the table of variables.
use craftsman_console.Base.{List, [], ◌∷◌, ◌++◌, ◌==◌, if◌then◌else◌}
use craftsman_console.Print.{number, real, string, Printed, printf}
use craftsman_console.Global.{Machine, GlobalVar, Globals, type_int, type_double, word_of}

-- The body of the loop of `global_var_print`.
abbrev pub print_var : Machine → GlobalVar → List Printed
print_var mach var =
    printf "[ var '%c' ] %s ( " (number var.type ∷ string var.name ∷ [])
    ∷ (value ++ printf " )\n" [] ∷ [])
  where
    value : List Printed
    value =
        if var.type == type_int
        then printf "%lu" (number (word_of mach var.value) ∷ []) ∷ []
        else if var.type == type_double
        then printf "%f" (real (word_of mach var.value) ∷ []) ∷ []
        else []

print_vars : Machine → Globals → List Printed
print_vars mach [] = []
print_vars mach (var ∷ vars) = print_var mach var ++ print_vars mach vars

unfoldable pub global_var_print : Machine → Globals → List Printed
unfolding print_vars
global_var_print mach vars = printf "--Variables--\n" [] ∷ print_vars mach vars
