-- ===== src/Turn/Main/Stable.antt =====
-- What main.c's statics keep when lines are typed, in a turn, and while the program waits.
use mathlib.Core.Option
use craftsman_console.Base.{
  ℕ, ◌%◌, ◌+◌, ◌^◌, min, ◌≡◌, refl, true, Bool-cases, inl, inr, List, [], ◌∷◌, ◌++◌, Option, none,
  some, Option-cases, leb, ◌==◌, length, take, drop, cstring, or_fault, Always, bind-Always,
  any-Always, strstr,
}
use craftsman_console.Network.{PollFlags}
use craftsman_console.Notify.{Event, notify_poll}
use craftsman_console.Input.{input_poll}
use craftsman_console.Record.{Allocator, RecordRw, record_append}
use craftsman_console.Loop.{
  Loop, slept, await_frame, loop_stall, loop_pause, loop_sync, loop_halt, loop_frame,
  loop_write_frame, loop_input_queue_max,
}
use craftsman_console.Clock.{clock_sync}
use craftsman_console.Execute.Commands.{first_byte}
use craftsman_console.Turn.{Game, Framed, command_preview, command_frame, input_callback}
use craftsman_console.Turn.Step.{
  Runtime, Play, Ending, stalled, paused, stepped, stall, run_commands, simulate, step_frame,
  run_frame, take_turn, await_next,
}
use craftsman_console.Turn.Iteration.{
  Answers, Session, dlpath, notify_callback, handle_events, handle_lines, pad_input, take_input,
}

-- What a wait for the next frame leaves of the loop.
pub record IsWaited (l l' : Loop) : Type 0 where
  pub runs : l'.running ≡ l.running
  pub queue : l'.input_queue ≡ l.input_queue
  pub queue_max : l'.input_queue_max ≡ l.input_queue_max

-- A predicate on the statics that each of the changes preserves which are made to them in the loop.
pub record IsStable (P : Game → Type 0) : Type 0 where
  pub typed : (g : Game) (entry : RecordRw) → P g → P (record g { input_rw = entry })
  pub aims : (g : Game) (goal : ℕ) → P g → P (record g { simulation_goal = goal })
  pub halts : (g : Game) → P g → P (record g { loop = loop_halt g.loop })
  pub leaves : (g : Game) → P g → P (record g { loop = loop_halt g.loop; exiting = true })
  pub grows :
      (g : Game)
      → P g
      → P (record g {
        loop = record g.loop {
          input_queue = min ((g.loop.input_queue + 1) % 2 ^ 32) g.loop.input_queue_max;
        };
      })
  pub waits : (g : Game) (l : Loop) → P g → IsWaited g.loop l → P (record g { loop = l })

-- What is true of what there is.
abbrev pub IfSome {ℓ κ} : {A : Type ℓ} → (A → Type κ) → Option A → Type κ
IfSome P none = Unit
IfSome P (some a) = P a

pub map-IfSome {ℓ κ} :
    {A B : Type ℓ} (P : B → Type κ) (f : A → B) (o : Option A)
    → IfSome (λ a. P (f a)) o
    → IfSome P (Option.map f o)
map-IfSome P f none h = tt
map-IfSome P f (some a) h = h

await_frame-IsWaited :
    (l₀ : Loop) (readings : List (ℕ × ℕ)) (l : Loop)
    → IsWaited l₀ l
    → IfSome (IsWaited l₀) (await_frame readings l)
unfolding await_frame slept
await_frame-IsWaited l₀ [] l w = tt
await_frame-IsWaited l₀ ((now, n) ∷ readings) l w =
    elim (Bool-cases (clock_sync now l.sleep_usec l.tsc_clock).0) [
      | inl e ↦
          rw (await_frame, e) (record { runs = w.runs; queue = w.queue; queue_max = w.queue_max })
      | inr e ↦
          rw (await_frame, e)
            (await_frame-IsWaited l₀ readings _
              (record { runs = w.runs; queue = w.queue; queue_max = w.queue_max }))
    ]

same : (l : Loop) → IsWaited l l
same l = record { runs = refl; queue = refl; queue_max = refl }

pub await_next-IsWaited :
    (ending : Ending) (readings : List (ℕ × ℕ)) (l : Loop)
    → IfSome (IsWaited l) (await_next ending readings l)
unfolding await_next loop_stall loop_pause loop_sync
await_next-IsWaited stalled readings l =
    await_frame-IsWaited l readings _ (record { runs = refl; queue = refl; queue_max = refl })
await_next-IsWaited paused readings l =
    await_frame-IsWaited l readings _ (record { runs = refl; queue = refl; queue_max = refl })
await_next-IsWaited stepped readings l =
    await_frame-IsWaited l readings _ (record { runs = refl; queue = refl; queue_max = refl })

module _ (P : Game → Type 0) (s : IsStable P) where
  -- The handlers.
  notify_callback-IsStable : (event : Event) (g : Game) → P g → Always P (notify_callback event g)
  unfolding notify_callback
  notify_callback-IsStable event g h = any-Always P (or_fault (cstring event.name)) _ (λ name.
      elim (Bool-cases (strstr dlpath name)) [
        | inl e ↦ rw e (s.halts _ (s.aims g 0 h))
        | inr e ↦ rw e h
      ])

  handle_events-IsStable :
      (events : List Event) (g : Game) → P g → Always P (handle_events events g)
  unfolding handle_events
  handle_events-IsStable [] g h = h
  handle_events-IsStable (e ∷ events) g h =
      bind-Always P P (notify_callback e g) (handle_events events) (notify_callback-IsStable e g h)
        (handle_events-IsStable events)

  input_callback-IsStable :
      (m : Allocator) (len : ℕ) (input : List ℕ) (g : Game)
      → P g
      → Always P (input_callback m len input g)
  unfolding input_callback
  input_callback-IsStable m len [] g h = tt
  input_callback-IsStable m len (c ∷ input) g h = elim (Bool-cases (c == b'!')) [
    | inl e ↦
        rw (input_callback, e)
          (elim (Bool-cases (first_byte input == b'q')) [
            | inl q ↦ rw q (s.leaves _ (s.aims g 0 h))
            | inr q ↦ rw q (elim (Bool-cases (first_byte input == b'r')) [
              | inl r ↦ rw r (s.halts _ (s.aims g 0 h))
              | inr r ↦ rw r h
            ])
          ])
    | inr e ↦
        rw (input_callback, e)
          (any-Always P (or_fault g.input_rw.rec) _ (λ rec.
            any-Always P (record_append m len (c ∷ input) rec g.input_rw.write_offset) _
              (λ (rec', off). s.typed g _ h)))
  ]

  pub handle_lines-IsStable :
      (m : Allocator) (lines : List (List ℕ)) (g : Game) → P g → Always P (handle_lines m lines g)
  unfolding handle_lines
  handle_lines-IsStable m [] g h = h
  handle_lines-IsStable m (line ∷ lines) g h =
      bind-Always P P (input_callback m (length line) (line ++ 0 ∷ []) g) (handle_lines m lines)
        (input_callback-IsStable m (length line) (line ++ 0 ∷ []) g h)
        (handle_lines-IsStable m lines)

  pub take_input-IsStable :
      (env : Runtime) (flags : PollFlags) (a : Answers) (t : Session)
      → P t.play.game
      → Always (λ t'. P t'.play.game) (take_input env flags a t)
  unfolding take_input
  take_input-IsStable env flags a t h =
      any-Always (λ t'. P t'.play.game) (notify_poll flags a.watched a.watch_reads t.watch) _
        (λ (watching, events, watch).
          bind-Always P (λ t'. P t'.play.game) (handle_events events t.play.game) _
            (handle_events-IsStable events t.play.game h)
            (λ changed h₁.
              any-Always (λ t'. P t'.play.game) (input_poll flags a.typed_poll a.typed t.input) _
                (λ (typing, lines, input).
                  bind-Always P (λ t'. P t'.play.game) (handle_lines env.allocator lines changed) _
                    (handle_lines-IsStable env.allocator lines changed h₁)
                    (λ g h₂.
                      any-Always (λ t'. P t'.play.game)
                        (pad_input (loop_write_frame g.loop) env.allocator (loop_write_frame g.loop)
                          g.input_rw)
                        _ (λ entry. s.typed g entry h₂)))))

  -- The turn.
  step_frame-IsStable :
      (env : Runtime) (p : Play) → P p.game → Always (λ (ending, p'). P p'.game) (step_frame env p)
  unfolding step_frame
  step_frame-IsStable env p h =
      elim (Bool-cases (leb p.game.simulation_goal (loop_frame p.game.loop))) [
        | inl e ↦ rw (step_frame, e) h
        | inr e ↦
            rw (step_frame, e)
              (any-Always (λ (ending, p'). P p'.game) (simulate env p.world p.frame_store) _
                (λ (w, store). h))
      ]

  run_frame-IsStable :
      (env : Runtime) (framed : Framed) (p : Play)
      → P p.game
      → Always (λ (ending, p'). P p'.game) (run_frame env framed p)
  unfolding run_frame
  run_frame-IsStable env framed p h = elim (Option-cases framed.commands) [
    | inl e ↦ rw (run_frame, e) tt
    | inr (commands, e) ↦
        rw (run_frame, e)
          (any-Always (λ (ending, p'). P p'.game)
            (run_commands env commands framed.buffer (p.game.simulation_goal, p.world)) _
            (λ (goal, w).
              step_frame-IsStable env
                (record p {
                  game = record p.game { simulation_goal = goal };
                  world = w;
                  game_record = framed.recording ++ drop p.player_count p.game_record;
                  frame_buffer = framed.buffer;
                })
                (s.aims p.game goal h)))
  ]

  pub take_turn-IsStable :
      (env : Runtime) (p : Play) → P p.game → Always (λ (ending, p'). P p'.game) (take_turn env p)
  unfolding take_turn stall loop_input_queue_max
  take_turn-IsStable env p h =
      elim (Bool-cases (
        (command_preview (loop_input_queue_max p.game.loop)
          (take p.player_count p.game_record)).turn_nearest
        == 0)) [
          | inl e ↦ rw (take_turn, e) (s.grows p.game h)
          | inr e ↦
              rw (take_turn, e)
                (any-Always (λ (ending, p'). P p'.game)
                  (command_frame (take p.player_count p.game_record) p.frame_buffer) _
                  (λ framed. run_frame-IsStable env framed p h))
        ]
