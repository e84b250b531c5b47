-- ===== src/Turn/Main/Queue.antt =====
-- The input queue of main.c's simulation, in all of its iterations.
use craftsman_console.Base.{
  ℕ, ◌+◌, ◌%◌, ◌^◌, ◌≤◌, ◌≡◌, refl, ap, sym, ◌∙◌, true, false, List, arith, ok, Always, any-Always,
  bind-Always, ◌*◌, ◌/◌, ltb, guard, ok-Always,
}
use craftsman_console.Network.{PollFlags}
use craftsman_console.Record.{record_alloc}
use craftsman_console.Dlfn.Open.{Libc}
use craftsman_console.Clock.{clock_init}
use craftsman_console.Loop.{Loop, loop_init, loop_halt, loop_write_frame}
use craftsman_console.Turn.{Game}
use craftsman_console.Turn.Step.{Runtime}
use craftsman_console.Turn.Iteration.{Answers, Session}
use craftsman_console.Turn.Program.{Program, Opened, start_simulation}
use craftsman_console.Turn.Main.{game_of}
use craftsman_console.Turn.Main.Stable.{IsStable}
use craftsman_console.Turn.Main.Iterations.{Reaches, Reaches-IsStable}

-- The queue is as long as it can be, and a game that is left does not run on.
pub record IsPaced (framerate : ℕ) (g : Game) : Type 0 where
  pub queue : g.loop.input_queue ≡ framerate
  pub queue_max : g.loop.input_queue_max ≡ framerate
  pub leaving : g.exiting ≡ true → g.loop.running ≡ false

IsPaced-IsStable : (framerate : ℕ) → framerate ≤ 255 → IsStable (IsPaced framerate)
unfolding loop_halt
IsPaced-IsStable framerate small = record {
  typed = λ g entry h. record { queue = h.queue; queue_max = h.queue_max; leaving = h.leaving };
  aims = λ g goal h. record { queue = h.queue; queue_max = h.queue_max; leaving = h.leaving };
  halts = λ g h. record { queue = h.queue; queue_max = h.queue_max; leaving = λ e. refl };
  leaves = λ g h. record { queue = h.queue; queue_max = h.queue_max; leaving = λ e. refl };
  grows = λ g h. record {
    queue = omega (arith, h.queue, h.queue_max, small);
    queue_max = h.queue_max;
    leaving = h.leaving;
  };
  waits = λ g l h w. record {
    queue = w.queue ∙ h.queue;
    queue_max = w.queue_max ∙ h.queue_max;
    leaving = λ e. w.runs ∙ h.leaving e;
  };
}

-- The loop begins with the whole queue.
loop_init-queue :
    (tsc_per_usec now framerate : ℕ) (l : Loop)
    → Always
        (λ l'. (l'.input_queue ≡ framerate) × (l'.input_queue_max ≡ framerate))
        (loop_init tsc_per_usec now framerate l)
unfolding loop_init
loop_init-queue tsc_per_usec now framerate l =
    any-Always (λ (l' : Loop). (l'.input_queue ≡ framerate) × (l'.input_queue_max ≡ framerate))
      (guard (ltb 0 framerate)) _
      (λ u.
        any-Always (λ (l' : Loop). (l'.input_queue ≡ framerate) × (l'.input_queue_max ≡ framerate))
          (clock_init tsc_per_usec now (1000 * 1000 / framerate)) _ (λ clock. (refl, refl)))

start_simulation-IsPaced :
    (libc : Libc) (env : Runtime) (framerate : ℕ) (a : Opened) (prog : Program)
    → (game_of prog).exiting ≡ false
    → Always
        (λ started. IsPaced framerate (game_of started))
        (start_simulation libc env framerate a prog)
unfolding start_simulation loop_init
start_simulation-IsPaced libc env framerate a prog stays =
    any-Always (λ started. IsPaced framerate (game_of started)) (record_alloc env.allocator) _
      (λ rec.
        bind-Always (λ l'. (l'.input_queue ≡ framerate) × (l'.input_queue_max ≡ framerate))
          (λ started. IsPaced framerate (game_of started))
          (loop_init a.tsc_per_usec a.now framerate (game_of prog).loop) _
          (loop_init-queue a.tsc_per_usec a.now framerate (game_of prog).loop)
          (λ l' h. record {
            queue = h.0;
            queue_max = h.1;
            leaving = λ e. absurd (false_true (sym stays ∙ e));
          }))
  where
    false_true : false ≡ true → ⊥
    false_true e = cc

-- In each state that a simulation comes to, at the head of its loop, the input queue is at its maximum, the
-- framerate, whatever the network, the players and the clock do and however often the simulation stalls:
-- commands are written for the frame that is a framerate ahead of the frames that were taken or paused.
-- A game that is left does not run on. The framerate is 255 at most, and the game is not left before the
-- simulation starts.
pub start_simulation-queue :
    (libc : Libc) (env : Runtime) (flags : PollFlags) (framerate : ℕ) (a : Opened)
    (prog started : Program) (answers : List Answers) (t : Session)
    → (game_of prog).exiting ≡ false
    → framerate ≤ 255
    → start_simulation libc env framerate a prog ≡ ok started
    → Reaches env flags answers started.session t
    → (t.play.game.loop.input_queue ≡ framerate)
      × (t.play.game.loop.input_queue_max ≡ framerate)
      × (loop_write_frame t.play.game.loop
          ≡ (t.play.game.loop.frame + t.play.game.loop.pause_frame + framerate) % 2 ^ 32)
      × (t.play.game.exiting ≡ true → t.play.game.loop.running ≡ false)
unfolding loop_write_frame
start_simulation-queue libc env flags framerate a prog started answers t stays small start r =
    let h =
      Reaches-IsStable (IsPaced framerate) (IsPaced-IsStable framerate small)
        (ok-Always (λ s. IsPaced framerate (game_of s)) _ started start
          (start_simulation-IsPaced libc env framerate a prog stays))
        r in
    (
      h.queue,
      h.queue_max,
      ap (λ q. (t.play.game.loop.frame + t.play.game.loop.pause_frame + q) % 2 ^ 32) h.queue,
      h.leaving,
    )
