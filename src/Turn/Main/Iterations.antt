-- ===== src/Turn/Main/Iterations.antt =====
-- What main.c's statics keep in an iteration of game_simulation's loop, and in the whole loop.
use craftsman_console.Base.{
  ℕ, ◌≡◌, refl, sym, subst, Bool, true, false, ◌||◌, inl, inr, List, [], ◌∷◌, some, Option-cases,
  ok, Always, bind-Always, any-Always, ok-Always,
}
use craftsman_console.Network.{PollFlags}
use craftsman_console.Loop.{loop_run, loop_halt, loop_write_frame}
use craftsman_console.Connection.Sync.{
  connection_sync, SyncStatus, conn_ok, conn_term, conn_change, conn_corrupt,
}
use craftsman_console.Turn.{Game}
use craftsman_console.Turn.Step.{Runtime, with_times, Play, Ending, take_turn, await_next}
use craftsman_console.Turn.Iteration.{
  Answers, Session, halt, end_turn, settle, take_input, synced_play, iteration,
}
use craftsman_console.Turn.Main.Stable.{
  IsWaited, IsStable, IfSome, map-IfSome, await_next-IsWaited, take_input-IsStable,
  take_turn-IsStable,
}

or_true : (b : Bool) → (b || true) ≡ true
or_true true = refl
or_true false = refl

or_false : (b : Bool) → (b || false) ≡ b
or_false true = refl
or_false false = refl

module _ (P : Game → Type 0) (s : IsStable P) where
  end_turn-IsStable :
      (readings : List (ℕ × ℕ)) (ending : Ending) (p : Play)
      → P p.game
      → IfSome (λ p'. P p'.game) (end_turn readings (ending, p))
  unfolding end_turn
  end_turn-IsStable readings ending p h =
      elim (Option-cases (await_next ending readings p.game.loop)) [
        | inl e ↦ rw (end_turn, e) tt
        | inr (l, e) ↦
            rw (end_turn, e)
              (s.waits p.game l h (
                subst (IfSome (IsWaited p.game.loop)) e
                  (await_next-IsWaited ending readings p.game.loop)))
      ]

  halt-IsStable : (leaving : Bool) (p : Play) → P p.game → P (halt leaving p).game
  unfolding halt
  halt-IsStable true p h =
      subst (λ b. P (record p.game { loop = loop_halt p.game.loop; exiting = b }))
        (sym (or_true p.game.exiting)) (s.leaves p.game h)
  halt-IsStable false p h =
      subst (λ b. P (record p.game { loop = loop_halt p.game.loop; exiting = b }))
        (sym (or_false p.game.exiting)) (s.halts p.game h)

  settle-IsStable :
      (env : Runtime) (readings : List (ℕ × ℕ)) (status : SyncStatus) (p : Play)
      → P p.game
      → Always (IfSome (λ p'. P p'.game)) (settle env readings status p)
  unfolding settle
  settle-IsStable env readings conn_corrupt p h = halt-IsStable true p h
  settle-IsStable env readings conn_term p h = halt-IsStable true p h
  settle-IsStable env readings conn_change p h = halt-IsStable false p h
  settle-IsStable env readings conn_ok p h =
      bind-Always (λ (ending, p'). P p'.game) (IfSome (λ p'. P p'.game)) (take_turn env p) _
        (take_turn-IsStable P s env p h)
        (λ (ending, p') h'. end_turn-IsStable readings ending p' h')

  -- An iteration, from what is true when its lines are handled.
  pub iteration-Always :
      (env : Runtime) (flags : PollFlags) (a : Answers) (t : Session)
      → Always (λ t'. P t'.play.game) (take_input env flags a t)
      → Always (IfSome (λ t'. P t'.play.game)) (iteration env flags a t)
  unfolding iteration synced_play
  iteration-Always env flags a t h =
      bind-Always (λ t'. P t'.play.game) (IfSome (λ t'. P t'.play.game)) (take_input env flags a t)
        _ h
        (λ t₁ h₁.
          any-Always (IfSome (λ t'. P t'.play.game))
            (connection_sync flags a.net_poll a.net_read a.written env.allocator env.signed
              (loop_write_frame t₁.play.game.loop) t₁.connection t₁.play.game.input_rw
              t₁.play.game_record)
            _
            (λ synced.
              bind-Always (IfSome (λ p. P p.game)) (IfSome (λ t'. P t'.play.game))
                (settle (with_times a.timer a.frame_timer env) a.readings synced.status
                  (synced_play synced t₁.play))
                _
                (settle-IsStable (with_times a.timer a.frame_timer env) a.readings synced.status
                  (synced_play synced t₁.play) (s.typed t₁.play.game synced.input h₁))
                (λ after h₂.
                  map-IfSome (λ t'. P t'.play.game)
                    (λ p. record t₁ { play = p; connection = synced.connection }) after h₂)))

  pub iteration-IsStable :
      (env : Runtime) (flags : PollFlags) (a : Answers) (t : Session)
      → P t.play.game
      → Always (IfSome (λ t'. P t'.play.game)) (iteration env flags a t)
  iteration-IsStable env flags a t h =
      iteration-Always env flags a t (take_input-IsStable P s env flags a t h)

-- The states at the head of the loop, with the answers that lead from one to another.
pub data Reaches (env : Runtime) (flags : PollFlags)
    : List Answers → Session → Session → Type 0 where
  begins : {t : Session} → Reaches env flags [] t t
  iterates :
      {t u v : Session} {answers : List Answers} (a : Answers)
      → loop_run t.play.game.loop ≡ true
      → iteration env flags a t ≡ ok (some u)
      → Reaches env flags answers u v
      → Reaches env flags (a ∷ answers) t v

pub Reaches-IsStable :
    (P : Game → Type 0) {env : Runtime} {flags : PollFlags} {answers : List Answers} {t u : Session}
    → IsStable P
    → P t.play.game
    → Reaches env flags answers t u
    → P u.play.game
Reaches-IsStable P s h begins = h
Reaches-IsStable P {env = env} {flags = flags} s h (iterates a running next r) =
    Reaches-IsStable P s
      (ok-Always (IfSome (λ t'. P t'.play.game)) _ _ next (iteration-IsStable P s env flags a _ h))
      r
