-- ===== src/Dlfn/Print.antt =====
-- dlfn.c: what is printed of the tables of the library. Where a function's code is, is an argument.
use craftsman_console.Base.{ℕ, List, [], ◌∷◌, length}
use craftsman_console.Print.{number, pointer, string, Printed, printf}
use craftsman_console.Dlfn.{Code, Function, Object}

print_functions : (Code → ℕ) → List Function → List Printed
print_functions address_of [] = []
print_functions address_of (f ∷ functions) =
    printf "[ %p ] %s\n" (pointer (address_of f.fnctor.call) ∷ string f.name ∷ [])
    ∷ print_functions address_of functions

unfoldable pub dlfn_print_functions : (Code → ℕ) → List Function → List Printed
unfolding print_functions
dlfn_print_functions address_of functions =
    printf "--Functions--\n" [] ∷ print_functions address_of functions

print_objects : List Object → List Printed
print_objects [] = []
print_objects (o ∷ objects) =
    printf "[ %zu bytes ] %s: %p\n"
      (number (length o.bytes) ∷ string o.name ∷ pointer o.address ∷ [])
    ∷ print_objects objects

unfoldable pub dlfn_print_objects : List Object → List Printed
unfolding print_objects
dlfn_print_objects objects = printf "--Objects--\n" [] ∷ print_objects objects
