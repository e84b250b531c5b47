-- ===== src/Base/Effects.antt =====
-- What a run of C code comes to: a value, the deliberate crash of macro.h (`CRASH`), or undefined
-- behaviour, such as an access outside of an object or a call through a null pointer.
use mathlib.Core.Option.{Option, none, some}
use mathlib.Core.Bool.{Bool, true, false}
use mathlib.Core.Path.{◌≡◌, refl, subst}

pub data Outcome {ℓ} (A : Type ℓ) : Type ℓ where
  ok : A → Outcome A
  crash fault : Outcome A

infixl 5 ◌>>=◌ ◌>>◌
abbrev pub ◌>>=◌ {ℓ κ} : {A : Type ℓ} {B : Type κ} → Outcome A → (A → Outcome B) → Outcome B
ok a >>= f = f a
crash >>= f = crash
fault >>= f = fault

abbrev pub ◌>>◌ {ℓ} : {B : Type ℓ} → Outcome (Unit {0}) → Outcome B → Outcome B
m >> k = m >>= λ _. k

-- what is read through a pointer: nothing there is undefined behaviour
abbrev pub or_fault {ℓ} : {A : Type ℓ} → Option A → Outcome A
or_fault none = fault
or_fault (some a) = ok a

abbrev pub guard : Bool → Outcome (Unit {0})
guard true = ok tt
guard false = fault

pub bind_same {ℓ κ} :
    {A : Type ℓ} {B : Type κ} (m : Outcome A) (f g : A → Outcome B)
    → ((a : A) → f a ≡ g a)
    → (m >>= f) ≡ (m >>= g)
bind_same (ok a) f g e = e a
bind_same crash f g e = refl
bind_same fault f g e = refl

pub bind_assoc {ℓ} :
    {A B C : Type ℓ} (m : Outcome A) (f : A → Outcome B) (g : B → Outcome C)
    → ((m >>= f) >>= g) ≡ (m >>= λ a. f a >>= g)
bind_assoc (ok a) f g = refl
bind_assoc crash f g = refl
bind_assoc fault f g = refl

-- What is true of the value, if there is one.
abbrev pub Always {ℓ κ} : {A : Type ℓ} → (A → Type κ) → Outcome A → Type κ
Always P (ok a) = P a
Always P crash = Unit
Always P fault = Unit

pub bind-Always {ℓ κ ν} :
    {A B : Type ℓ} (P : A → Type κ) (Q : B → Type ν) (m : Outcome A) (f : A → Outcome B)
    → Always P m
    → ((a : A) → P a → Always Q (f a))
    → Always Q (m >>= f)
bind-Always P Q (ok a) f h then_q = then_q a h
bind-Always P Q crash f h then_q = tt
bind-Always P Q fault f h then_q = tt

-- Where nothing is known of the first value.
pub any-Always {ℓ κ} :
    {A B : Type ℓ} (Q : B → Type κ) (m : Outcome A) (f : A → Outcome B)
    → ((a : A) → Always Q (f a))
    → Always Q (m >>= f)
any-Always Q (ok a) f then_q = then_q a
any-Always Q crash f then_q = tt
any-Always Q fault f then_q = tt

-- The same, with the equation.
pub known-Always {ℓ κ} :
    {A B : Type ℓ} (Q : B → Type κ) (m : Outcome A) (f : A → Outcome B)
    → ((a : A) → m ≡ ok a → Always Q (m >>= f))
    → Always Q (m >>= f)
known-Always Q (ok a) f then_q = then_q a refl
known-Always Q crash f then_q = tt
known-Always Q fault f then_q = tt

pub ok-Always {ℓ κ} :
    {A : Type ℓ} (P : A → Type κ) (m : Outcome A) (a : A) → m ≡ ok a → Always P m → P a
ok-Always P m a e h = subst (Always P) e h
