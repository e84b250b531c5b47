-- ===== src/Turn/Course.antt =====
-- The course of two players' programs over many turns of main.c.
use craftsman_console.Base.{
  ℕ, ◌+◌, ◌%◌, ◌^◌, ◌≤◌, ◌≡◌, ap, sym, subst, ◌∙◌, List, [], ◌∷◌, some, length, take, get_elem?,
  Outcome, ok,
}
use craftsman_console.Record.{RecordRw}
use craftsman_console.Record.Log.{encode}
use craftsman_console.Record.Read.{AllText}
use craftsman_console.Execute.Benchmark.{Timer}
use craftsman_console.Turn.{frame_buf_len, turns_ahead}
use craftsman_console.Turn.Frame.{Part, commands_of}
use craftsman_console.Turn.Step.{
  Runtime, with_times, Play, Ending, stalled, paused, stepped, stall, take_turn,
}
use craftsman_console.Turn.Lockstep.{
  Shared, shared_of, shared_turn, NoBenchmark, InTurn, take_turn-lockstep,
}
use craftsman_console.Turn.Pace.{take_turn-stalls}

-- What the call that waits does to it: loop_sync counts the frame.
abbrev pub after : Ending → Shared → Shared
after stalled s = s
after paused s = s
after stepped s = record s { frame = (s.frame + 1) % 2 ^ 32 }

-- A player has nothing ahead.
pub record IsBehind (p : Play) : Type 0 where
  pub index : ℕ
  pub entry : RecordRw
  pub there : get_elem? (take p.player_count p.game_record) index ≡ some entry
  pub behind : turns_ahead entry ≡ 0

-- A course from a program's state: turns that stall, and turns that take the commands of a list. Between two
-- turns the records may grow, and all else may change that the players do not share.
pub data Runs (env : Runtime) : List (List (List ℕ)) → Play → Shared → Type 0 where
  ends : {p : Play} {s : Shared} → shared_of p ≡ s → Runs env [] p s
  waits :
      {p q next : Play} {turns : List (List (List ℕ))} {s : Shared} (timer : ℕ → Timer)
      (frame_timer : ℕ → ℕ × ℕ)
      → IsBehind p
      → take_turn (with_times timer frame_timer env) p ≡ ok (stalled, next)
      → shared_of q ≡ shared_of next
      → Runs env turns q s
      → Runs env turns p s
  takes :
      {p q next : Play} {cs : List (List ℕ)} {turns : List (List (List ℕ))} {s : Shared}
      {ending : Ending} (timer : ℕ → Timer) (frame_timer : ℕ → ℕ × ℕ) (parts : List Part)
      → InTurn p parts
      → commands_of parts ≡ cs
      → AllText cs
      → NoBenchmark cs
      → length (encode cs) ≤ frame_buf_len
      → take_turn (with_times timer frame_timer env) p ≡ ok (ending, next)
      → shared_of q ≡ after ending (shared_of next)
      → Runs env turns q s
      → Runs env (cs ∷ turns) p s

ok_eq {ℓ} : {A : Type ℓ} {a b : A} → ok a ≡ ok b → a ≡ b
ok_eq e = cc

-- A turn that stalls changes nothing that the players share.
waits_same :
    (env : Runtime) (timer : ℕ → Timer) (frame_timer : ℕ → ℕ × ℕ) (p next : Play)
    → IsBehind p
    → take_turn (with_times timer frame_timer env) p ≡ ok (stalled, next)
    → shared_of next ≡ shared_of p
unfolding stall
waits_same env timer frame_timer p next b turn =
    ap (λ (r : Ending × Play). shared_of r.1)
      (ok_eq (
        sym turn
        ∙ take_turn-stalls (with_times timer frame_timer env) p b.index b.entry b.there b.behind))

-- what a turn leaves once it has been waited for
after_turn : Shared → Outcome (Ending × Shared) → Shared
after_turn s (ok (ending, t)) = after ending t
after_turn s _ = s

takes_same :
    (env : Runtime) (timer later : ℕ → Timer) (frame_timer frame_later : ℕ → ℕ × ℕ)
    (p q next last : Play) (ending end : Ending) (parts others : List Part) (cs : List (List ℕ))
    → InTurn p parts
    → InTurn q others
    → commands_of parts ≡ cs
    → commands_of others ≡ cs
    → AllText cs
    → NoBenchmark cs
    → length (encode cs) ≤ frame_buf_len
    → take_turn (with_times timer frame_timer env) p ≡ ok (ending, next)
    → take_turn (with_times later frame_later env) q ≡ ok (end, last)
    → shared_of p ≡ shared_of q
    → after ending (shared_of next) ≡ after end (shared_of last)
unfolding after_turn
takes_same env timer later frame_timer frame_later p q next last ending end parts others cs i j c d
      t quiet room turn turn' h =
    ap (λ o. after_turn (shared_of p) (shared_turn o)) (sym turn)
    ∙ ap (after_turn (shared_of p)) (
        take_turn-lockstep (with_times timer frame_timer env) later frame_later p q parts others i j
          (c ∙ sym d) (subst AllText (sym c) t) (subst NoBenchmark (sym c) quiet)
          (subst (λ l. length (encode l) ≤ frame_buf_len) (sym c) room) h)
    ∙ ap (λ o. after_turn (shared_of p) (shared_turn o)) turn'

-- Two programs on the same machine, with the same library at the same addresses, that begin with the same goal,
-- world, frame and frame store, and take the same commands turn by turn, in turns that all end without
-- undefined behaviour, have the same at the end, wherever each of them stalls on its
-- way and however long the calls of their functions take. The commands are strings that fit the buffer,
-- none is a benchmark, and between turns nothing changes what is shared.
pub same_course :
    {env : Runtime} {turns : List (List (List ℕ))} {p q : Play} {s t : Shared}
    → Runs env turns p s
    → Runs env turns q t
    → shared_of p ≡ shared_of q
    → s ≡ t
same_course {env = env} (waits v x b turn e r) r' h =
    same_course r r' (e ∙ waits_same env _ _ _ _ b turn ∙ h)
same_course {env = env} (ends e) (ends e') h = sym e ∙ h ∙ e'
same_course {env = env} (ends {p = p} e) (waits v x b turn e' r') h =
    same_course (ends {p = p} e) r' (h ∙ sym (e' ∙ waits_same env _ _ _ _ b turn))
same_course {env = env} (takes v x parts i c t k room turn e r) (waits w y b turn' e' r') h =
    same_course (takes v x parts i c t k room turn e r) r'
      (h ∙ sym (e' ∙ waits_same env _ _ _ _ b turn'))
same_course {env = env} (takes v x parts i c t k room turn e r)
      (takes w y others j d u l space turn' e' r') h =
    same_course r r'
      (e ∙ takes_same env _ _ _ _ _ _ _ _ _ _ parts others _ i j c d t k room turn turn' h ∙ sym e')
