-- ===== src/Global/Tests.antt =====
-- The theorems on global.c's table at concrete tables.
use craftsman_console.Base.{ℕ, ◌<◌, ◌≡◌, inl, List, [], ◌∷◌, some, none, arith, length, replicate}
use craftsman_console.Global.{global_get, global_get_or_create}
use craftsman_console.Global.Lookup.{
  IsTable, IsShort, global_get_or_create-IsTable, global_get_or_create-get,
  global_get_or_create-long,
}

-- "speed"
abbrev pub speed : List ℕ
speed = b's' ∷ b'p' ∷ b'e' ∷ b'e' ∷ b'd' ∷ []

pub speed-IsShort : IsShort speed
speed-IsShort = record { text = omega arith; short = omega arith }

empty-IsTable : IsTable []
empty-IsTable = record { within = omega arith; terminated = λ i var e. cc }

create_in_empty : IsTable (global_get_or_create speed []).1
create_in_empty = global_get_or_create-IsTable speed [] empty-IsTable

create_speed :
    (i : ℕ) × ((global_get_or_create speed []).0 ≡ some i)
    × (i < length (global_get_or_create speed []).1)
    × (global_get speed (global_get_or_create speed []).1 ≡ some i)
    × (global_get (b'x' ∷ []) (global_get_or_create speed []).1 ≡ global_get (b'x' ∷ []) [])
create_speed =
    global_get_or_create-get speed (b'x' ∷ []) [] speed-IsShort
      (record { text = omega arith; short = omega arith }) (λ e. cc) (inl (omega arith))

create_long :
    ((global_get_or_create (replicate 16 b'x') []).0 ≡ some 0)
    × (length (global_get_or_create (replicate 16 b'x') []).1 ≡ 1)
    × (global_get (replicate 16 b'x') (global_get_or_create (replicate 16 b'x') []).1 ≡ none)
create_long =
    global_get_or_create-long (replicate 16 b'x') [] (omega arith) (omega arith) empty-IsTable
      (omega arith)
