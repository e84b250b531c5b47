-- ===== src/Dlfn.antt =====
-- functor.c and dlfn.c: the functions and objects of the loaded library.
pub mod Bounds
pub mod Symbols
pub mod Print
pub mod Open
pub mod Sorting
pub mod Opening
pub mod Tests
use Prim.Native.Nat.{compare, Ordering}
use craftsman_console.Base.{
  ℕ, zero, suc, ◌+◌, ◌-◌, Bool, true, false, ◌&&◌, ◌||◌, List, [], ◌∷◌, ◌++◌, Option, none, some,
  ltb, leb, not, ◌==◌, if◌then◌else◌, length, take, set, replicate,
}
use craftsman_console.Global.{Param, word}

-- What a function pointer points to: execute.c's `noop` and `copy`, or a function of the library at
-- its address.
pub data Code : Type 0 where
  null noop copy : Code
  library : ℕ → Code

-- `Functor_t`, with its `PARAM_COUNT` parameters
pub record Functor : Type 0 where
  pub call : Code
  pub param : List Param

abbrev pub param_count : ℕ
param_count = 3

unfoldable pub functor_init : Code → Functor
functor_init fp = record { call = fp; param = word 0 ∷ word 0 ∷ word 0 ∷ [] }

-- `Function_t`
pub record Function : Type 0 where
  pub name : List ℕ
  pub fnctor : Functor

-- `Object_t`, with the bytes at its address
pub record Object : Type 0 where
  pub name : List ℕ
  pub address : ℕ
  pub bytes : List ℕ

abbrev pub max_symbols : ℕ
max_symbols = 32

abbrev pub max_path : ℕ
max_path = 128

-- `ElfW(Sym)`, with the name behind `st_name` and the bytes at its address
pub data SymbolType : Type 0 where
  func object other_type : SymbolType

pub record Symbol : Type 0 where
  pub type : SymbolType
  pub is_global : Bool
  pub size : ℕ
  pub value : ℕ
  pub name : List ℕ
  pub contents : List ℕ

abbrev is_func : SymbolType → Bool
is_func func = true
is_func object = false
is_func other_type = false

abbrev is_object : SymbolType → Bool
is_object func = false
is_object object = true
is_object other_type = false

abbrev pub is_function_symbol : Symbol → Bool
is_function_symbol s = is_func s.type && s.is_global && not (s.size == 0)

abbrev pub is_object_symbol : Symbol → Bool
is_object_symbol s = is_object s.type && s.is_global && not (s.size == 0)

unfoldable pub function_of : ℕ → Symbol → Function
unfolding functor_init
function_of addr s = record { name = s.name; fnctor = functor_init (library (addr + s.value)) }

unfoldable pub object_of : ℕ → Symbol → Object
object_of addr s = record { name = s.name; address = addr + s.value; bytes = s.contents }

-- A loop of `parse_symtab`: the table that it fills has the entries `used`.
unfoldable pub collect {ℓ} :
    {A : Type ℓ} → (Symbol → Bool) → (Symbol → A) → List Symbol → List A → List A
collect wanted make [] used = used
collect wanted make (s ∷ symtab) used = elim (wanted s) [
  | false ↦ collect wanted make symtab used
  | true ↦ elim (leb max_symbols (length used)) [
    | true ↦ used
    | false ↦ collect wanted make symtab (used ++ make s ∷ [])
  ]
]

-- dlfn.c's statics; the handle is null or not.
pub record Library : Type 0 where
  pub dlname : List ℕ
  pub dlhandle : Bool
  pub functions : List Function
  pub objects : List Object

unfoldable pub parse_symtab : ℕ → List Symbol → Library → Library
unfolding collect function_of object_of
parse_symtab addr symtab lib = record lib {
  functions = collect is_function_symbol (function_of addr) symtab lib.functions;
  objects = collect is_object_symbol (object_of addr) symtab lib.objects;
}

-- The order of the addresses; a null pointer is 0 and a function of the program is not in the table.
abbrev pub address_of : Code → ℕ
address_of null = 0
address_of noop = 0
address_of copy = 0
address_of (library a) = a

unfoldable pub symbol_order : Function → Function → Ordering
symbol_order lhs rhs = compare (address_of lhs.fnctor.call) (address_of rhs.fnctor.call)

unfoldable pub object_order : Object → Object → Ordering
object_order lhs rhs = compare lhs.address rhs.address

-- `strcmp(a, b) == 0`
unfoldable pub strcmp_eq : List ℕ → List ℕ → Bool
strcmp_eq [] [] = true
strcmp_eq [] (y ∷ ys) = false
strcmp_eq (x ∷ xs) [] = false
strcmp_eq (x ∷ xs) (y ∷ ys) = let rest = strcmp_eq xs ys in if x == y then rest else false

-- The index of the first entry of that name, which is the pointer's offset in the table.
unfoldable pub find_name {ℓ} : {A : Type ℓ} → (A → List ℕ) → List ℕ → List A → Option ℕ
find_name name_of name [] = none
find_name name_of name (a ∷ as') =
    let later = find_name name_of name as' in
    if strcmp_eq name (name_of a) then some 0 else next later
  where
    next : Option ℕ → Option ℕ
    next none = none
    next (some i) = some (suc i)

unfoldable pub dlfn_get_symbol : List ℕ → List Function → Option ℕ
unfolding find_name strcmp_eq
dlfn_get_symbol name functions = find_name (λ (f : Function). f.name) name functions

unfoldable pub dlfn_get_object : List ℕ → List Object → Option ℕ
unfolding find_name strcmp_eq
dlfn_get_object name objects = find_name (λ (o : Object). o.name) name objects

-- The return value, and the statics.
unfoldable pub dlfn_close : Library → Bool × Library
dlfn_close lib =
    if lib.dlhandle
    then (true, record lib { functions = []; objects = []; dlhandle = false })
    else (false, lib)

unfoldable pub dlfn_shutdown : Library → Library
unfolding dlfn_close
dlfn_shutdown lib = record (dlfn_close lib).1 { dlname = [] }
