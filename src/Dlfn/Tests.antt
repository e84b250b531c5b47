-- ===== src/Dlfn/Tests.antt =====
-- The theorem on dlfn.c's tables at a concrete symbol table.
use craftsman_console.Base.{◌≡◌, refl, true, false, List, [], ◌∷◌, map, take}
use craftsman_console.Dlfn.{
  Symbol, SymbolType, Library, max_symbols, parse_symtab, function_of, object_of,
  is_function_symbol, is_object_symbol,
}
use craftsman_console.Dlfn.Symbols.{filter, parse_symtab-first}

-- a function, a local function, and an object
abbrev symtab : List Symbol
symtab =
    (record {
      type = SymbolType.func;
      is_global = true;
      size = 8;
      value = 64;
      name = b'f' ∷ [];
      contents = [];
    })
    ∷ (record {
      type = SymbolType.func;
      is_global = false;
      size = 8;
      value = 80;
      name = b'g' ∷ [];
      contents = [];
    })
    ∷ (record {
      type = SymbolType.object;
      is_global = true;
      size = 4;
      value = 96;
      name = b'o' ∷ [];
      contents = 1 ∷ 0 ∷ 0 ∷ 0 ∷ [];
    })
    ∷ []

abbrev opened : Library
opened = record { dlname = b'x' ∷ []; dlhandle = true; functions = []; objects = [] }

parse_three :
    ((parse_symtab 4096 symtab opened).functions
      ≡ take max_symbols (map (function_of 4096) (filter is_function_symbol symtab)))
    × ((parse_symtab 4096 symtab opened).objects
        ≡ take max_symbols (map (object_of 4096) (filter is_object_symbol symtab)))
parse_three = parse_symtab-first 4096 symtab opened refl refl
