-- ===== src/Clock/Lock/Fair.antt =====
-- Each access to the lock of platform_clock.c's `__tsc_per_usec` keeps the tickets in order.
use craftsman_console.Base.{
  ℕ, ◌+◌, ◌^◌, ◌≤◌, ◌<◌, ◌≡◌, refl, ap, sym, subst, ◌∙◌, Bool-cases, ==_iff, ==_refl, inl, inr,
  arith, ◌==◌, if◌then◌else◌,
}
use craftsman_console.Clock.Lock.{
  Phase, outside, drawing, waiting, measuring, handing, Lock, put, with_phase, next_access,
}
use craftsman_console.Clock.Lock.Tickets.{
  Sound, Serves, IsFair, put_each, Sound-later, Serves-later, Sound-after,
}

-- The next access of thread `i`, in some phase.
module _ (owner : ℕ → ℕ) (i : ℕ) (l : Lock) (f : IsFair owner l) where
  open l use {lock_id, running_thread, threads}

  own-Sound : (phase : Phase) → threads i ≡ phase → Sound owner lock_id running_thread i phase
  own-Sound phase e = subst (Sound owner lock_id running_thread i) e (f.sound i)

  own-Serves : (phase : Phase) → threads i ≡ phase → Serves owner lock_id running_thread i phase
  own-Serves phase e = subst (Serves owner lock_id running_thread i) e (f.serves i)

  -- A change of the thread's phase alone.
  moves_on :
      (phase : Phase)
      → Sound owner lock_id running_thread i phase
      → Serves owner lock_id running_thread i phase
      → IsFair owner (with_phase i phase l)
  moves_on phase s v = record {
    sound = put_each (Sound owner lock_id running_thread) i phase threads s (λ j other. f.sound j);
    serves =
        put_each (Serves owner lock_id running_thread) i phase threads v (λ j other. f.serves j);
    in_order = f.in_order;
  }

  draws :
      (n : ℕ)
      → threads i ≡ drawing n
      → ((j m : ℕ) → threads j ≡ drawing m → j ≡ i)
      → lock_id + 1 < 2 ^ 64
      → IsFair (put lock_id i owner) (next_access i (drawing n) l)
  unfolding next_access
  draws n e alone few =
      subst
        (λ k. IsFair (put lock_id i owner) (with_phase i (waiting n) (record l { lock_id = k })))
        (omega (arith, at, few))
        (record {
          sound =
              put_each (Sound (put lock_id i owner) (lock_id + 1) running_thread) i (waiting n)
                threads
                (record {
                  owned = rw at (rw (==_refl lock_id) refl);
                  below = omega (arith, at);
                  due = omega (arith, at, f.in_order);
                })
                (λ j other.
                  Sound-later owner lock_id running_thread i j (threads j)
                    (λ m d. other (sym (alone j m d))) (f.sound j));
          serves =
              put_each (Serves (put lock_id i owner) (lock_id + 1) running_thread) i (waiting n)
                threads mine
                (λ j other.
                  Serves-later owner lock_id running_thread i j (threads j) other (f.serves j));
          in_order = omega (arith, f.in_order);
        })
    where
      at : n ≡ lock_id
      at = own-Sound (drawing n) e

      mine : Serves (put lock_id i owner) (lock_id + 1) running_thread i (waiting n)
      mine m owned due below = elim (Bool-cases (lock_id == m)) [
        | inl same ↦ sym ((==_iff lock_id m).0 same) ∙ sym at
        | inr differ ↦ absurd (
            own-Serves (drawing n) e m (sym (ap (λ b. if b then i else owner m) differ) ∙ owned) due
              (ground (arith, differ, below)))
      ]

  hands :
      (n r : ℕ)
      → threads i ≡ handing n r
      → lock_id < 2 ^ 64
      → IsFair owner (next_access i (handing n r) l)
  unfolding next_access
  hands n r e few =
      let (d, now, read) = own-Sound (handing n r) e in
      let own : owner running_thread ≡ i = ap owner (sym now) ∙ d.owned in
      subst (λ k. IsFair owner (with_phase i outside (record l { running_thread = k })))
        (omega (arith, read, now, d.below, few))
        (record {
          sound =
              put_each (Sound owner lock_id (running_thread + 1)) i outside threads tt (λ j other.
                Sound-after owner lock_id running_thread i j (threads j) own other (f.sound j));
          serves =
              put_each (Serves owner lock_id (running_thread + 1)) i outside threads
                (λ m owned due below.
                  let held = own-Serves (handing n r) e m owned (omega (arith, due)) below in
                  omega (arith, held, now, due))
                (λ j other m owned due below. f.serves j m owned (omega (arith, due)) below);
          in_order = omega (arith, now, d.below);
        })

  pub next_access-IsFair :
      (phase : Phase)
      → threads i ≡ phase
      → ((j m : ℕ) → threads j ≡ drawing m → j ≡ i)
      → lock_id + 1 < 2 ^ 64
      → (next : ℕ → ℕ) × IsFair next (next_access i phase l)
        × ((next_access i phase l).lock_id ≤ lock_id + 1)
  unfolding next_access
  next_access-IsFair outside e alone few =
      (owner, moves_on (drawing lock_id) refl (own-Serves outside e), omega arith)
  next_access-IsFair (drawing n) e alone few =
      (put lock_id i owner, draws n e alone few, omega (arith, own-Sound (drawing n) e, few))
  next_access-IsFair (waiting n) e alone few = elim (Bool-cases (n == running_thread)) [
    | inl turn ↦ rw turn (
      owner,
      moves_on (measuring n) (own-Sound (waiting n) e, (==_iff n running_thread).0 turn)
          (own-Serves (waiting n) e),
      omega arith,
    )
    | inr waits ↦ rw waits (owner, f, omega arith)
  ]
  next_access-IsFair (measuring n) e alone few =
      let (d, now) = own-Sound (measuring n) e in
      (
        owner,
        moves_on (handing n running_thread) (d, now, refl) (own-Serves (measuring n) e),
        omega arith,
      )
  next_access-IsFair (handing n r) e alone few =
      (owner, hands n r e (omega (arith, few)), omega arith)
