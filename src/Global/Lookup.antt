-- ===== src/Global/Lookup.antt =====
-- Names in the table of global.c: global_get and global_get_or_create.
use craftsman_console.Base.{
  ℕ, suc, ◌+◌, ◌-◌, ◌≤◌, ◌<◌, ◌≡◌, ◌≢◌, refl, ap, sym, ◌∙◌, ◌⊎◌, inl, inr, true, false, Bool-cases,
  Option-cases, List, [], ◌∷◌, ◌++◌, Option, some, none, arith, leb, if◌then◌else◌, length,
  length-append, get_elem?, get_elem?-snoc, IsText,
}
use craftsman_console.Global.{
  GlobalVar, Globals, max_variable_name, max_variable, global_init, is_named, global_get_from,
  global_get, global_get_or_create,
}
use craftsman_console.Global.Names.{
  strncmp_eq-same, strncmp_eq-eq, strncmp_eq-long, stored, stored-last,
}

-- The table fits its array, and each name is terminated in its field.
pub record IsTable (vars : Globals) : Type 0 where
  pub within : length vars ≤ max_variable
  pub terminated :
      (i : ℕ) (var : GlobalVar)
      → get_elem? vars i ≡ some var
      → get_elem? var.name (max_variable_name - 1) ≡ some 0

-- A name that fits the field with its terminator.
pub record IsShort (name : List ℕ) : Type 0 where
  pub text : IsText name
  pub short : length name < max_variable_name

pub is_named-init : (name : List ℕ) → IsShort name → is_named name (global_init name) ≡ true
unfolding global_init
is_named-init name s =
    let (more, e) = stored 15 16 name (omega (arith, s.short)) (omega arith) in
    rw e (strncmp_eq-same 16 name [] more s.text)

is_named-init_eq :
    (other name : List ℕ)
    → IsShort other
    → IsShort name
    → is_named other (global_init name) ≡ true
    → other ≡ name
unfolding global_init
is_named-init_eq other name o s h =
    let (more, e) = stored 15 16 name (omega (arith, s.short)) (omega arith) in
    strncmp_eq-eq 16 other name [] more o.text s.text o.short (rw e at h)

-- Looking up behind a table in which the name is not.
get_from-append :
    (i : ℕ) (name : List ℕ) (vars : Globals) (var : GlobalVar)
    → global_get_from i name (vars ++ var ∷ []) ≡ (elim (global_get_from i name vars) [
      | some j ↦ some j
      | none ↦ if is_named name var then some (i + length vars) else none
    ])
unfolding global_get_from
get_from-append i name [] var = ground arith
get_from-append i name (v ∷ vars) var = ground (arith, get_from-append (i + 1) name vars var)

get_from-lt :
    (i : ℕ) (name : List ℕ) (vars : Globals) (j : ℕ)
    → global_get_from i name vars ≡ some j
    → j < i + length vars
unfolding global_get_from
get_from-lt i name [] j e = cc
get_from-lt i name (v ∷ vars) j e = ground (arith, get_from-lt (i + 1) name vars j)

init-terminated : (name : List ℕ) → get_elem? (global_init name).name 15 ≡ some 0
unfolding global_init
init-terminated name = stored-last 15 16 name (omega arith)

le→leb : (n : ℕ) → n < max_variable → leb max_variable n ≡ false
le→leb n h = ground arith

-- A long name is not the name of a variable whose name is terminated in its field.
get_from-long :
    (i : ℕ) (name : List ℕ) (vars : Globals)
    → IsText name
    → max_variable_name ≤ length name
    → ((j : ℕ) (var : GlobalVar)
        → get_elem? vars j ≡ some var
        → get_elem? var.name (max_variable_name - 1) ≡ some 0)
    → global_get_from i name vars ≡ none
unfolding global_get_from
get_from-long i name [] text long t = refl
get_from-long i name (v ∷ vars) text long t = rw (
  strncmp_eq-long 16 15 name (0 ∷ []) v.name text long (omega arith) (t 0 v refl),
  get_from-long (i + 1) name vars text long (λ j var e. t (suc j) var e),
)

get-long :
    (name : List ℕ) (vars : Globals)
    → IsText name
    → max_variable_name ≤ length name
    → IsTable vars
    → global_get name vars ≡ none
unfolding global_get
get-long name vars text long t = get_from-long 0 name vars text long t.terminated

get-append :
    (name : List ℕ) (vars : Globals) (var : GlobalVar)
    → global_get name (vars ++ var ∷ []) ≡ (elim (global_get name vars) [
      | some j ↦ some j
      | none ↦ if is_named name var then some (length vars) else none
    ])
unfolding global_get
get-append name vars var =
    get_from-append 0 name vars var
    ∙ ap {B = Option ℕ}
        (λ (n : ℕ). elim (global_get_from 0 name vars) [
          | some j ↦ some j
          | none ↦ if is_named name var then some n else none
        ])
        (omega arith)

get-lt : (name : List ℕ) (vars : Globals) (i : ℕ) → global_get name vars ≡ some i → i < length vars
unfolding global_get
get-lt name vars i e = omega (arith, get_from-lt 0 name vars i e)

not_named :
    (other name : List ℕ) (vars : Globals)
    → IsShort other
    → IsShort name
    → other ≢ name
    → (elim (global_get other vars) [
      | some j ↦ some j
      | none ↦ if is_named other (global_init name) then some (length vars) else none
    ])
      ≡ global_get other vars
not_named other name vars o s ne = elim (Bool-cases (is_named other (global_init name))) [
  | inl same ↦ absurd (ne (is_named-init_eq other name o s same))
  | inr differs ↦ ground arith
]

IsTable-append :
    (name : List ℕ) (vars : Globals)
    → IsTable vars
    → length vars < max_variable
    → IsTable (vars ++ global_init name ∷ [])
IsTable-append name vars t room = record {
  within = omega (arith, length-append vars (global_init name ∷ []));
  terminated = λ i var e. elim (get_elem?-snoc vars (global_init name) i e) [
    | inl old ↦ t.terminated i var old
    | inr new ↦ ap (λ (v : GlobalVar). get_elem? v.name 15) (sym new) ∙ init-terminated name
  ];
}

-- Every call keeps the table within its array, with each name terminated in its field.
pub global_get_or_create-IsTable :
    (name : List ℕ) (vars : Globals) → IsTable vars → IsTable (global_get_or_create name vars).1
unfolding global_get_or_create
global_get_or_create-IsTable name vars t = elim (Option-cases (global_get name vars)) [
  | inl e ↦ elim (Bool-cases (leb max_variable (length vars))) [
    | inl full ↦ rw (e, global_get_or_create, full) t
    | inr room ↦ rw (e, global_get_or_create, room) (IsTable-append name vars t (ground arith))
  ]
  | inr (i, e) ↦ rw (e, global_get_or_create) t
]

-- What a call returns, with all other names at once.
pub get_or_create-found :
    (name : List ℕ) (vars : Globals)
    → IsShort name
    → (length vars < max_variable) ⊎ (global_get name vars ≢ none)
    → (i : ℕ) × ((global_get_or_create name vars).0 ≡ some i)
      × (i < length (global_get_or_create name vars).1)
      × (global_get name (global_get_or_create name vars).1 ≡ some i)
      × ((other : List ℕ)
          → IsShort other
          → other ≢ name
          → global_get other (global_get_or_create name vars).1 ≡ global_get other vars)
unfolding global_get_or_create
get_or_create-found name vars s enough = elim (Option-cases (global_get name vars)) [
  | inr (i, e) ↦ rw (e, global_get_or_create) (i, refl, get-lt name vars i e, e, λ other o ne. refl)
  | inl e ↦ elim enough [
    | inr found ↦ absurd (found e)
    | inl room ↦
        rw (e, global_get_or_create, le→leb (length vars) room)
          (
            length vars,
            refl,
            omega (arith, length-append vars (global_init name ∷ [])),
            get-append name vars (global_init name) ∙ rw (e, is_named-init name s),
            λ other o ne.
                get-append other vars (global_init name) ∙ not_named other name vars o s ne,
          )
  ]
]

-- The variable that a call returns for a name that fits its field is in the table, and is the one
-- found by that name from then on; any other such name is found where it was, or not at all as
-- before. The name is in the table already, or the table is not full.
pub global_get_or_create-get :
    (name other : List ℕ) (vars : Globals)
    → IsShort name
    → IsShort other
    → other ≢ name
    → (length vars < max_variable) ⊎ (global_get name vars ≢ none)
    → (i : ℕ) × ((global_get_or_create name vars).0 ≡ some i)
      × (i < length (global_get_or_create name vars).1)
      × (global_get name (global_get_or_create name vars).1 ≡ some i)
      × (global_get other (global_get_or_create name vars).1 ≡ global_get other vars)
global_get_or_create-get name other vars s o ne enough =
    let (i, e, inside, found, rest) = get_or_create-found name vars s enough in
    (i, e, inside, found, rest other o ne)

-- A string of 16 bytes or more is never found again in a table whose names are terminated: each call
-- for it makes another variable, while the table is not full.
pub global_get_or_create-long :
    (name : List ℕ) (vars : Globals)
    → IsText name
    → max_variable_name ≤ length name
    → IsTable vars
    → length vars < max_variable
    → ((global_get_or_create name vars).0 ≡ some (length vars))
      × (length (global_get_or_create name vars).1 ≡ length vars + 1)
      × (global_get name (global_get_or_create name vars).1 ≡ none)
unfolding global_get_or_create
global_get_or_create-long name vars text long t room =
    let missing = get-long name vars text long t in
    rw (missing, global_get_or_create, le→leb (length vars) room)
      (
        refl,
        omega (arith, length-append vars (global_init name ∷ [])),
        get-long name _ text long (IsTable-append name vars t room),
      )
