-- ===== src/Turn/Main/Quit.antt =====
-- What ends main.c's program: `!q`, typed in an iteration.
use craftsman_console.Base.{
  ℕ, ◌≡◌, refl, ◌∙◌, ◌⊎◌, inl, inr, Bool, true, false, List, [], ◌∷◌, ◌++◌, some, ◌==◌, length, ok,
  ◌>>=◌, Always, bind-Always, any-Always, ok-Always,
}
use craftsman_console.Network.{PollFlags}
use craftsman_console.Notify.{notify_poll}
use craftsman_console.Input.{Input, input_poll}
use craftsman_console.Record.{Allocator}
use craftsman_console.Dlfn.Open.{Libc}
use craftsman_console.Loop.{loop_halt, loop_run, loop_write_frame}
use craftsman_console.Turn.{Game, input_callback}
use craftsman_console.Turn.Step.{Runtime}
use craftsman_console.Turn.Iteration.{
  Answers, Session, handle_events, handle_lines, pad_input, take_input, iteration,
}
use craftsman_console.Turn.Program.{Program, Opened, start_simulation, end_simulation}
use craftsman_console.Turn.Main.{
  game_loop, Simulated, with_session, game_simulation, game_of, rewound, main_loop,
}
use craftsman_console.Turn.Main.Stable.{IsStable, IfSome, handle_lines-IsStable}
use craftsman_console.Turn.Main.Iterations.{iteration-Always, Reaches, begins, iterates}

-- `!q`, with anything behind it
abbrev pub IsQuit : List ℕ → Type 0
IsQuit [] = ⊥
IsQuit (c ∷ []) = ⊥
IsQuit (c ∷ d ∷ line) = ((c == b'!') ≡ true) × ((d == b'q') ≡ true)

-- One of the lines is that.
abbrev pub AnyQuit : List (List ℕ) → Type 0
AnyQuit [] = ⊥
AnyQuit (line ∷ lines) = IsQuit line ⊎ AnyQuit lines

pub record IsLeft (g : Game) : Type 0 where
  pub leaves : g.exiting ≡ true
  pub halted : g.loop.running ≡ false

IsLeft-IsStable : IsStable IsLeft
unfolding loop_halt
IsLeft-IsStable = record {
  typed = λ g entry h. record { leaves = h.leaves; halted = h.halted };
  aims = λ g goal h. record { leaves = h.leaves; halted = h.halted };
  halts = λ g h. record { leaves = h.leaves; halted = refl };
  leaves = λ g h. record { leaves = refl; halted = refl };
  grows = λ g h. record { leaves = h.leaves; halted = h.halted };
  waits = λ g l h w. record { leaves = h.leaves; halted = w.runs ∙ h.halted };
}

input_callback-quit :
    (m : Allocator) (line : List ℕ) (g : Game)
    → IsQuit line
    → Always IsLeft (input_callback m (length line) (line ++ 0 ∷ []) g)
unfolding input_callback loop_halt
input_callback-quit m [] g q = absurd q
input_callback-quit m (c ∷ []) g q = absurd q
input_callback-quit m (c ∷ d ∷ line) g (mark, key) =
    rw (mark, key) (record { leaves = refl; halted = refl })

handle_lines-quit :
    (m : Allocator) (lines : List (List ℕ)) (g : Game)
    → AnyQuit lines
    → Always IsLeft (handle_lines m lines g)
unfolding handle_lines
handle_lines-quit m [] g q = absurd q
handle_lines-quit m (line ∷ lines) g (inl q) =
    bind-Always IsLeft IsLeft (input_callback m (length line) (line ++ 0 ∷ []) g) _
      (input_callback-quit m line g q) (handle_lines-IsStable IsLeft IsLeft-IsStable m lines)
handle_lines-quit m (line ∷ lines) g (inr q) =
    any-Always IsLeft (input_callback m (length line) (line ++ 0 ∷ []) g) _
      (λ g'. handle_lines-quit m lines g' q)

take_input-quit :
    (env : Runtime) (flags : PollFlags) (a : Answers) (t : Session) (typing : Bool)
    (lines : List (List ℕ)) (input : Input)
    → input_poll flags a.typed_poll a.typed t.input ≡ ok (typing, lines, input)
    → AnyQuit lines
    → Always (λ t'. IsLeft t'.play.game) (take_input env flags a t)
unfolding take_input
take_input-quit env flags a t typing lines input polled q =
    any-Always (λ t'. IsLeft t'.play.game) (notify_poll flags a.watched a.watch_reads t.watch) _
      (λ (watching, events, watch).
        any-Always (λ t'. IsLeft t'.play.game) (handle_events events t.play.game) _
          (λ changed.
            rw (polled, ◌>>=◌)
              (bind-Always IsLeft (λ t'. IsLeft t'.play.game)
                (handle_lines env.allocator lines changed) _
                (handle_lines-quit env.allocator lines changed q)
                (λ g h.
                  any-Always (λ t'. IsLeft t'.play.game)
                    (pad_input (loop_write_frame g.loop) env.allocator (loop_write_frame g.loop)
                      g.input_rw)
                    _ (λ entry. record { leaves = h.leaves; halted = h.halted })))))

-- The loop goes on from a state that it comes to.
game_loop-Reaches :
    {env : Runtime} {flags : PollFlags} {before : List Answers} {t u : Session}
    (answers : List Answers)
    → Reaches env flags before t u
    → game_loop env flags (before ++ answers) t ≡ game_loop env flags answers u
unfolding game_loop
game_loop-Reaches answers begins = refl
game_loop-Reaches answers (iterates a running next r) =
    rw (game_loop, running, next, ◌>>=◌) (game_loop-Reaches answers r)

game_loop_over :
    (env : Runtime) (flags : PollFlags) (answers : List Answers) (t : Session)
    → t.play.game.loop.running ≡ false
    → game_loop env flags answers t ≡ ok (some t)
unfolding game_loop loop_run
game_loop_over env flags [] t halted = simp (game_loop, halted)
game_loop_over env flags (a ∷ answers) t halted = simp (game_loop, halted)

main_loop_over :
    (libc : Libc) (env : Runtime) (flags : PollFlags) (framerate : ℕ) (simulations : List Simulated)
    (prog : Program)
    → (game_of prog).exiting ≡ true
    → main_loop libc env flags framerate simulations prog ≡ ok (some ([], prog))
unfolding main_loop
main_loop_over libc env flags framerate [] prog leaves = simp (main_loop, leaves)
main_loop_over libc env flags framerate (a ∷ simulations) prog leaves = simp (main_loop, leaves)

-- The loop ends with the iteration in which `!q` is typed.
game_loop-quit :
    {env : Runtime} {flags : PollFlags} {before : List Answers} {t u v : Session} (a : Answers)
    (later : List Answers) (typing : Bool) (lines : List (List ℕ)) (input : Input)
    → Reaches env flags before t u
    → u.play.game.loop.running ≡ true
    → input_poll flags a.typed_poll a.typed u.input ≡ ok (typing, lines, input)
    → AnyQuit lines
    → iteration env flags a u ≡ ok (some v)
    → (game_loop env flags (before ++ a ∷ later) t ≡ ok (some v)) × IsLeft v.play.game
unfolding game_loop loop_run
game_loop-quit {env = env} {flags = flags} {u = u} {v = v} a later typing lines input r running
      polled q next =
    let left =
      ok-Always (IfSome (λ t'. IsLeft t'.play.game)) (iteration env flags a u) (some v) next (
        iteration-Always IsLeft IsLeft-IsStable env flags a u
          (take_input-quit env flags a u typing lines input polled q)) in
    (
      game_loop-Reaches (a ∷ later) r
          ∙ rw (game_loop, running, next, ◌>>=◌) (game_loop_over env flags later v left.halted),
      left,
    )

-- A line that begins with `!q` ends the program. Where a program that is not left yet starts a simulation
-- and comes to an iteration in which such a line is read, among whatever else is typed, and that
-- iteration comes to its end: it is the last of its simulation, and the simulation is the last of the
-- program, whatever the system would have answered later.
pub main_loop-quit :
    {before : List Answers} {u v : Session} (libc : Libc) (env : Runtime) (flags : PollFlags)
    (framerate : ℕ) (opened : Opened) (can_open : Bool) (prog started : Program) (a : Answers)
    (later : List Answers) (simulations : List Simulated) (typing : Bool) (lines : List (List ℕ))
    (input : Input)
    → (game_of prog).exiting ≡ false
    → start_simulation libc env framerate opened prog ≡ ok started
    → Reaches env flags before started.session u
    → u.play.game.loop.running ≡ true
    → input_poll flags a.typed_poll a.typed u.input ≡ ok (typing, lines, input)
    → AnyQuit lines
    → iteration env flags a u ≡ ok (some v)
    → main_loop libc env flags framerate
        (record { opened = opened; iterations = before ++ a ∷ later; can_open = can_open }
          ∷ simulations)
        prog
      ≡ ok (
          some (
            (end_simulation can_open (with_session v started)).0 ∷ [],
            rewound (end_simulation can_open (with_session v started)).1,
          ))
unfolding main_loop game_simulation end_simulation
main_loop-quit {v = v} libc env flags framerate opened can_open prog started a later simulations
      typing lines input stays start r running polled q next =
    let (over, left) = game_loop-quit a later typing lines input r running polled q next in
    simp (
      main_loop,
      stays,
      start,
      over,
      ◌>>=◌,
      main_loop_over libc env flags framerate simulations
          (rewound (end_simulation can_open (with_session v started)).1) left.leaves,
    )
