-- ===== src/Base/Memory.antt =====
-- The parts of string.h that the program uses, over an object as the list of its bytes. A pointer is
-- an offset in the object; `none` and `fault` are accesses that leave it.
use Prim.Native.Nat.{ℕ, suc, ◌+◌, ◌≤◌, ◌<◌}
use mathlib.Core.Path.{◌≡◌, refl}
use mathlib.Core.Logic.{◌≢◌}
use mathlib.Core.List.{List, [], ◌∷◌, ◌++◌, append-nil}
use mathlib.Core.Option.{Option, none, some}
use mathlib.Core.Option
use native.Mathlib.Omega.{arith}
use mathlib.Core.Bool.{Bool, true, false, ◌||◌}
use craftsman_console.Base.Tests.{◌==◌, leb, if◌then◌else◌}
use craftsman_console.Base.Lists.{
  length, take, drop, set, length-append, take-append, drop-append, drop-append_add, set-append,
  take_self, drop-length, length-take, length-drop,
}
use craftsman_console.Base.Effects.{Outcome, ok, fault}

-- A string's bytes up to its terminator: what `strlen` and `%s` read from a `char *`.
abbrev pub cstring : List ℕ → Option (List ℕ)
cstring [] = none
cstring (c ∷ cs) = if c == 0 then some [] else Option.map (◌∷◌ c) (cstring cs)

-- No byte is the terminator.
abbrev pub IsText : List ℕ → Type 0
IsText [] = Unit
IsText (c ∷ cs) = (c ≢ 0) × IsText cs

pub cstring-text : (s rest : List ℕ) → IsText s → cstring (s ++ 0 ∷ rest) ≡ some s
cstring-text [] rest t = refl
cstring-text (c ∷ s) rest t = ground (arith, cstring-text s rest t.1)

pub IsText-snoc : (s : List ℕ) (c : ℕ) → IsText s → c ≢ 0 → IsText (s ++ c ∷ [])
IsText-snoc [] c t ne = (ne, tt)
IsText-snoc (d ∷ s) c t ne = (t.0, IsText-snoc s c t.1 ne)

-- `memcpy(dst + off, src, len)`
unfoldable pub memcpy : List ℕ → ℕ → ℕ → List ℕ → Outcome (List ℕ)
memcpy dst off len src =
    if leb len (length src)
    then (if leb (off + len) (length dst)
        then ok (take off dst ++ (take len src ++ drop (off + len) dst))
        else fault)
    else fault

-- `dst[i] = v`
unfoldable pub store : List ℕ → ℕ → ℕ → Outcome (List ℕ)
store dst i v = if leb (suc i) (length dst) then ok (set dst i v) else fault

-- `memmove(b, b + n, len)`
unfoldable pub memmove : ℕ → ℕ → List ℕ → Outcome (List ℕ)
memmove n len b = if leb (n + len) (length b) then ok (take len (drop n b) ++ drop len b) else fault

-- Copying just past a first part, into what follows it.
pub memcpy-append :
    (pre gap s : List ℕ) (off len : ℕ)
    → off ≡ length pre
    → len ≡ length s
    → len ≤ length gap
    → memcpy (pre ++ gap) off len s ≡ ok (pre ++ (s ++ drop len gap))
unfolding memcpy
memcpy-append pre gap s off len eo el h = ground (
  arith,
  length-append pre gap,
  take-append off pre gap eo,
  drop-append_add len pre gap,
  take_self len s el,
)

pub store-append :
    (pre gap : List ℕ) (b v i : ℕ)
    → i ≡ length pre
    → store (pre ++ b ∷ gap) i v ≡ ok (pre ++ v ∷ gap)
unfolding store
store-append pre gap b v i e =
    ground (arith, length-append pre (b ∷ gap), set-append i pre gap b v e)

-- Copying past the end of the object.
pub memcpy_outside :
    (dst : List ℕ) (off len : ℕ) (src : List ℕ)
    → length dst < off + len
    → memcpy dst off len src ≡ fault
unfolding memcpy
memcpy_outside dst off len src h = ground arith

pub store_outside : (dst : List ℕ) (i v : ℕ) → length dst ≤ i → store dst i v ≡ fault
unfolding store
store_outside dst i v h = ground arith

-- Copying inside the object keeps its size.
pub memcpy_inside :
    (dst : List ℕ) (off len : ℕ) (src : List ℕ)
    → len ≤ length src
    → off + len ≤ length dst
    → (out : List ℕ) × (memcpy dst off len src ≡ ok out) × (length out ≡ length dst)
unfolding memcpy
memcpy_inside dst off len src h k = (
  take off dst ++ (take len src ++ drop (off + len) dst),
  ground arith,
  omega (
    arith,
    length-append (take off dst) (take len src ++ drop (off + len) dst),
    length-append (take len src) (drop (off + len) dst),
    length-take off dst,
    length-take len src,
    length-drop (off + len) dst,
  ),
)

-- Copying over the whole object.
pub memcpy_whole :
    (dst src rest : List ℕ)
    → length dst ≡ length src
    → memcpy dst 0 (length src) (src ++ rest) ≡ ok src
unfolding memcpy
memcpy_whole dst src rest e = ground (
  arith,
  length-append src rest,
  take-append (length src) src rest refl,
  drop-length dst (length src),
  append-nil src,
)

-- Moving the part behind a first part to the front.
pub memmove-append :
    (front part spare : List ℕ) (n len : ℕ)
    → n ≡ length front
    → len ≡ length part
    → memmove n len (front ++ (part ++ spare)) ≡ ok (part ++ drop len (front ++ (part ++ spare)))
unfolding memmove
memmove-append front part spare n len en el = ground (
  arith,
  length-append front (part ++ spare),
  length-append part spare,
  drop-append n front (part ++ spare) en,
  take-append len part spare el,
)

-- Only the bytes that are copied matter.
pub memcpy_prefix :
    (dst : List ℕ) (off : ℕ) (src more : List ℕ)
    → memcpy dst off (length src) (src ++ more) ≡ memcpy dst off (length src) src
unfolding memcpy
memcpy_prefix dst off src more = ground (
  arith,
  length-append src more,
  take-append (length src) src more refl,
  take_self (length src) src refl,
)

-- Moving all that is behind a first part to the front.
pub memmove_tail :
    (front part : List ℕ) (n len : ℕ)
    → n ≡ length front
    → len ≡ length part
    → memmove n len (front ++ part) ≡ ok (part ++ drop len (front ++ part))
memmove_tail front part n len en el = rw append-nil at (memmove-append front part [] n len en el)

pub IsText-append : (s t : List ℕ) → IsText s → IsText t → IsText (s ++ t)
IsText-append [] t hs ht = ht
IsText-append (c ∷ s) t hs ht = (hs.0, IsText-append s t hs.1 ht)

-- Whether `needle` is at the front of a string, and `strstr(s, needle)` as a test.
unfoldable pub starts_with : List ℕ → List ℕ → Bool
starts_with [] s = true
starts_with (c ∷ needle) [] = false
starts_with (c ∷ needle) (d ∷ s) = let rest = starts_with needle s in if c == d then rest else false

unfoldable pub strstr : List ℕ → List ℕ → Bool
unfolding starts_with
strstr [] needle = starts_with needle []
strstr (c ∷ s) needle = let rest = strstr s needle in starts_with needle (c ∷ s) || rest
