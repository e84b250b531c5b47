-- ===== src/Notify/Walk.antt =====
-- The events in notify.c's buffer, as the system writes them, are those that its loop finds.
use craftsman_console.Base.{
  ℕ, zero, suc, ◌+◌, ◌-◌, ◌%◌, ◌/◌, ◌^◌, ◌≤◌, ◌<◌, ◌≡◌, refl, ap, sym, ◌∙◌, List, [], ◌∷◌, ◌++◌,
  append_assoc, arith, length, length-append, drop, drop-append, ok, ◌>>=◌,
}
use craftsman_console.Server.{le32}
use craftsman_console.Notify.{Event, load_u32, event_bytes, event_at, walk_events}

-- An event as the system reports it.
pub record Report : Type 0 where
  pub wd : ℕ
  pub mask : ℕ
  pub cookie : ℕ
  pub name : List ℕ

-- Its bytes: three numbers, the length of the name, and the name.
abbrev pub encode_event : Report → List ℕ
encode_event r = le32 r.wd ++ (le32 r.mask ++ (le32 r.cookie ++ (le32 (length r.name) ++ r.name)))

abbrev pub encode_events : List Report → List ℕ
encode_events [] = []
encode_events (r ∷ rs) = encode_event r ++ encode_events rs

abbrev pub InRange : List Report → Type 0
InRange [] = Unit
InRange (r ∷ rs) =
    (r.wd < 2 ^ 32)
    × (r.mask < 2 ^ 32)
    × (r.cookie < 2 ^ 32)
    × (length r.name < 2 ^ 32)
    × InRange rs

-- What the handler is given of them: the numbers, and the name with all that stands behind it.
abbrev pub delivered : ℕ → List Report → List ℕ → List Event
delivered idx [] tail = []
delivered idx (r ∷ rs) tail =
    (record {
      idx = idx;
      wd = r.wd;
      mask = r.mask;
      cookie = r.cookie;
      len = length r.name;
      name = r.name ++ (encode_events rs ++ tail);
    })
    ∷ delivered idx rs tail

load_u32-le32 :
    (n : ℕ)
    → n < 2 ^ 32
    → load_u32 (n % 256) (n / 256 % 256) (n / 2 ^ 16 % 256) (n / 2 ^ 24 % 256) ≡ n
load_u32-le32 n h = omega arith

event_at-encode :
    (idx : ℕ) (r : Report) (rs : List Report) (tail : List ℕ)
    → InRange (r ∷ rs)
    → event_at idx (encode_event r ++ (encode_events rs ++ tail))
      ≡ ok (record {
        idx = idx;
        wd = r.wd;
        mask = r.mask;
        cookie = r.cookie;
        len = length r.name;
        name = r.name ++ (encode_events rs ++ tail);
      })
unfolding event_at
event_at-encode idx r rs tail h =
    let name = r.name ++ (encode_events rs ++ tail) in
    rw (
      load_u32-le32 r.wd h.0,
      load_u32-le32 r.mask h.1,
      load_u32-le32 r.cookie h.2,
      load_u32-le32 (length r.name) h.3,
    )

length-encode_event : (r : Report) → length (encode_event r) ≡ event_bytes + length r.name
length-encode_event r = omega arith

walk_round :
    (idx fuel left : ℕ) (event : List ℕ) (e : Event) (later : List Event)
    → event_at idx event ≡ ok e
    → walk_events fuel idx (drop (event_bytes + e.len) event) (suc left - (event_bytes + e.len))
      ≡ ok later
    → walk_events (suc fuel) idx event (suc left) ≡ ok (e ∷ later)
unfolding walk_events
walk_round idx fuel left event e later at rest = rw (at, ◌>>=◌) (rw (rest, ◌>>=◌) refl)

pub walk_events-encode :
    (rs : List Report) (idx fuel left : ℕ) (tail : List ℕ)
    → InRange rs
    → left ≡ length (encode_events rs)
    → left ≤ fuel
    → walk_events fuel idx (encode_events rs ++ tail) left ≡ ok (delivered idx rs tail)
unfolding walk_events
walk_events-encode [] idx fuel zero tail h l f = refl
walk_events-encode [] idx fuel (suc left) tail h l f = absurd (omega (arith, l))
walk_events-encode (r ∷ rs) idx fuel zero tail h l f = absurd (omega (arith, l))
walk_events-encode (r ∷ rs) idx zero (suc left) tail h l f = absurd (omega (arith, f))
walk_events-encode (r ∷ rs) idx (suc fuel) (suc left) tail h l f =
    let one = length-encode_event r in
    let all : suc left ≡ event_bytes + length r.name + length (encode_events rs) =
      l
      ∙ length-append (encode_event r) (encode_events rs)
      ∙ ap (λ n. n + length (encode_events rs)) one in
    let split = append_assoc (encode_event r) (encode_events rs) tail in
    let at = ap (event_at idx) split ∙ event_at-encode idx r rs tail h in
    let moved : drop (event_bytes + length r.name) (encode_events (r ∷ rs) ++ tail)
        ≡ encode_events rs ++ tail =
      ap (drop (event_bytes + length r.name)) split
      ∙ drop-append (event_bytes + length r.name) (encode_event r) (encode_events rs ++ tail)
          (sym one) in
    let later =
      walk_events-encode rs idx fuel (suc left - (event_bytes + length r.name)) tail h.4
        (omega (arith, all)) (omega (arith, all, f)) in
    walk_round idx fuel left (encode_events (r ∷ rs) ++ tail) _ (delivered idx rs tail) at
      (ap (λ b. walk_events fuel idx b (suc left - (event_bytes + length r.name))) moved ∙ later)
