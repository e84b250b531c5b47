-- ===== src/Clock/Lock/Tickets.antt =====
-- The tickets of the lock of platform_clock.c's `__tsc_per_usec`, and who owns them.
use craftsman_console.Base.{
  ℕ, ◌+◌, ◌≤◌, ◌<◌, ◌≡◌, refl, ap, sym, subst, ◌∙◌, Bool-cases, ==_iff, ne→==, inl, inr, List, [],
  ◌∷◌, arith, ◌==◌, if◌then◌else◌,
}
use craftsman_console.Clock.Lock.{
  Phase, outside, drawing, waiting, measuring, handing, Lock, put, step_thread,
}

-- A thread has drawn the ticket.
abbrev pub Holds : ℕ → Phase → Type 0
Holds n outside = ⊥
Holds n (drawing m) = ⊥
Holds n (waiting m) = n ≡ m
Holds n (measuring m) = n ≡ m
Holds n (handing m r) = n ≡ m

-- A thread is between the wait and the end of the last `++`.
abbrev pub IsInside : Phase → Type 0
IsInside outside = ⊥
IsInside (drawing m) = ⊥
IsInside (waiting m) = ⊥
IsInside (measuring m) = Unit
IsInside (handing m r) = Unit

-- A thread that has read `lock_id` writes it before any other accesses the lock.
abbrev pub IsUndivided : List ℕ → Lock → Type 0
IsUndivided [] l = Unit
IsUndivided (i ∷ schedule) l =
    ((j n : ℕ) → l.threads j ≡ drawing n → j ≡ i) × IsUndivided schedule (step_thread i l)

module _ (owner : ℕ → ℕ) (lock_id running : ℕ) where
  -- The ticket is one of those that are drawn and not served yet, and the thread's own.
  pub record IsDrawn (j n : ℕ) : Type 0 where
    pub owned : owner n ≡ j
    pub below : n < lock_id
    pub due : running ≤ n

  abbrev pub Sound : ℕ → Phase → Type 0
  Sound j outside = Unit
  Sound j (drawing n) = n ≡ lock_id
  Sound j (waiting n) = IsDrawn j n
  Sound j (measuring n) = IsDrawn j n × (n ≡ running)
  Sound j (handing n r) = IsDrawn j n × (n ≡ running) × (r ≡ running)

  -- A ticket that the thread owns and that is not served yet is held.
  abbrev pub Serves : ℕ → Phase → Type 0
  Serves j phase = (n : ℕ) → owner n ≡ j → running ≤ n → n < lock_id → Holds n phase

pub record IsFair (owner : ℕ → ℕ) (l : Lock) : Type 0 where
  pub sound : (j : ℕ) → Sound owner l.lock_id l.running_thread j (l.threads j)
  pub serves : (j : ℕ) → Serves owner l.lock_id l.running_thread j (l.threads j)
  pub in_order : l.running_thread ≤ l.lock_id

pub put_each {ℓ κ} :
    {A : Type ℓ} (P : ℕ → A → Type κ) (i : ℕ) (a : A) (f : ℕ → A)
    → P i a
    → ((j : ℕ) → ((i ≡ j) → ⊥) → P j (f j))
    → (j : ℕ) → P j (put i a f j)
put_each P i a f here there j = elim (Bool-cases (i == j)) [
  | inl e ↦ rw e (subst (λ k. P k a) ((==_iff i j).0 e) here)
  | inr e ↦ rw e (there j (λ same. ground arith))
]

-- The threads other than `i`, when `i` writes `lock_id`.
IsDrawn-later :
    (owner : ℕ → ℕ) (lock_id running i j n : ℕ)
    → IsDrawn owner lock_id running j n
    → IsDrawn (put lock_id i owner) (lock_id + 1) running j n
IsDrawn-later owner lock_id running i j n d = record {
  owned = rw (ne→== lock_id n (λ e. omega (arith, d.below, e))) d.owned;
  below = omega (arith, d.below);
  due = d.due;
}

pub Sound-later :
    (owner : ℕ → ℕ) (lock_id running i j : ℕ) (phase : Phase)
    → ((n : ℕ) → phase ≡ drawing n → ⊥)
    → Sound owner lock_id running j phase
    → Sound (put lock_id i owner) (lock_id + 1) running j phase
Sound-later owner lock_id running i j outside idle s = tt
Sound-later owner lock_id running i j (drawing n) idle s = absurd (idle n refl)
Sound-later owner lock_id running i j (waiting n) idle s =
    IsDrawn-later owner lock_id running i j n s
Sound-later owner lock_id running i j (measuring n) idle (d, now) =
    (IsDrawn-later owner lock_id running i j n d, now)
Sound-later owner lock_id running i j (handing n r) idle (d, now, read) =
    (IsDrawn-later owner lock_id running i j n d, now, read)

pub Serves-later :
    (owner : ℕ → ℕ) (lock_id running i j : ℕ) (phase : Phase)
    → (i ≡ j → ⊥)
    → Serves owner lock_id running j phase
    → Serves (put lock_id i owner) (lock_id + 1) running j phase
Serves-later owner lock_id running i j phase other s n owned due below =
    elim (Bool-cases (lock_id == n)) [
      | inl e ↦ absurd (other (sym (ap (λ b. if b then i else owner n) e) ∙ owned))
      | inr e ↦
          s n (sym (ap (λ b. if b then i else owner n) e) ∙ owned) due (ground (arith, e, below))
    ]

-- The threads other than `i`, when `i` writes `running_thread`.
IsDrawn-after :
    (owner : ℕ → ℕ) (lock_id running i j n : ℕ)
    → owner running ≡ i
    → (i ≡ j → ⊥)
    → IsDrawn owner lock_id running j n
    → IsDrawn owner lock_id (running + 1) j n
IsDrawn-after owner lock_id running i j n own other d = record {
  owned = d.owned;
  below = d.below;
  due = elim (Bool-cases (running == n)) [
    | inl e ↦ absurd (other (sym own ∙ ap owner ((==_iff running n).0 e) ∙ d.owned))
    | inr e ↦ ground (arith, e, d.due)
  ];
}

not_now :
    (owner : ℕ → ℕ) (lock_id running i j n : ℕ)
    → owner running ≡ i
    → (i ≡ j → ⊥)
    → IsDrawn owner lock_id running j n
    → n ≡ running
    → ⊥
not_now owner lock_id running i j n own other d now = other (sym own ∙ ap owner (sym now) ∙ d.owned)

pub Sound-after :
    (owner : ℕ → ℕ) (lock_id running i j : ℕ) (phase : Phase)
    → owner running ≡ i
    → (i ≡ j → ⊥)
    → Sound owner lock_id running j phase
    → Sound owner lock_id (running + 1) j phase
Sound-after owner lock_id running i j outside own other s = tt
Sound-after owner lock_id running i j (drawing n) own other s = s
Sound-after owner lock_id running i j (waiting n) own other s =
    IsDrawn-after owner lock_id running i j n own other s
Sound-after owner lock_id running i j (measuring n) own other (d, now) =
    absurd (not_now owner lock_id running i j n own other d now)
Sound-after owner lock_id running i j (handing n r) own other (d, now, read) =
    absurd (not_now owner lock_id running i j n own other d now)
