-- ===== src/Execute/Handles.antt =====
-- The handles of execute.c: which of them are indices in the array of functors.
use craftsman_console.Base.{
  ℕ, zero, suc, ◌<◌, ◌≡◌, refl, ◌∙◌, List, [], ◌∷◌, length, length-set, set, replicate, arith,
}
use craftsman_console.Base.Int.{ℤ, pos, negsuc}
use craftsman_console.Dlfn.{param_count}
use craftsman_console.Execute.{max_func}
use craftsman_console.Execute.Commands.{set_handle}

-- A handle is an entry of `result_func`, or -1, which a full table gives.
abbrev pub IsHandle : ℤ → Type 0
IsHandle (pos n) = n < max_func
IsHandle (negsuc n) = n ≡ 0

abbrev pub AllHandles : List ℤ → Type 0
AllHandles [] = Unit
AllHandles (func ∷ funcs) = IsHandle func × AllHandles funcs

-- The rows of `load_param_handle`, each with a handle for each parameter.
abbrev pub AllRows : List (List ℤ) → Type 0
AllRows [] = Unit
AllRows (row ∷ rows) = (length row ≡ param_count) × AllHandles row × AllRows rows

pub AllHandles-set :
    (funcs : List ℤ) (i : ℕ) (func : ℤ)
    → IsHandle func
    → AllHandles funcs
    → AllHandles (set funcs i func)
AllHandles-set [] i func h a = tt
AllHandles-set (f ∷ funcs) zero func h a = (h, a.1)
AllHandles-set (f ∷ funcs) (suc i) func h a = (a.0, AllHandles-set funcs i func h a.1)

pub AllRows-set_handle :
    (fi pi : ℕ) (func : ℤ) (rows : List (List ℤ))
    → IsHandle func
    → AllRows rows
    → AllRows (set_handle fi pi func rows)
AllRows-set_handle fi pi func [] h a = tt
AllRows-set_handle zero pi func (row ∷ rows) h a =
    (length-set row pi func ∙ a.0, AllHandles-set row pi func h a.1, a.2)
AllRows-set_handle (suc fi) pi func (row ∷ rows) h a =
    (a.0, a.1, AllRows-set_handle fi pi func rows h a.2)

-- Handles that were never set are 0.
pub AllHandles-cleared : (n : ℕ) → AllHandles (replicate n (pos 0))
AllHandles-cleared zero = tt
AllHandles-cleared (suc n) = (omega arith, AllHandles-cleared n)

pub AllRows-cleared : (n : ℕ) → AllRows (replicate n (pos 0 ∷ pos 0 ∷ pos 0 ∷ []))
AllRows-cleared zero = tt
AllRows-cleared (suc n) = (refl, (omega arith, (omega arith, (omega arith, tt))), AllRows-cleared n)
