-- ===== src/Turn/Lockstep.antt =====
-- The turns of two players' programs: main.c's turn as a function of the commands in it.
use craftsman_console.Base.{
  ℕ, zero, suc, ◌+◌, ◌≤◌, ◌≡◌, Bool-cases, inl, inr, refl, subst, ap, ap₂, sym, ◌∙◌, true, false,
  List, [], ◌∷◌, ◌++◌, append_assoc, some, arith, leb, ◌==◌, length, length-append, take, drop,
  drop-append, Outcome, ok, ◌>>=◌, bind_same, bind_assoc,
}
use craftsman_console.Record.{RecordRw}
use craftsman_console.Record.Log.{encode}
use craftsman_console.Record.Read.{AllText}
use craftsman_console.Loop.{loop_frame, loop_input_queue_max}
use craftsman_console.Global.{global_var_ops}
use craftsman_console.Execute.{World}
use craftsman_console.Turn.{frame_buf_len, Framed, command_preview, command_frame, execute_any}
use craftsman_console.Turn.Frame.{
  Part, entries, commands_of, moved_of, AllNext, places, command_frame-all,
}
use craftsman_console.Execute.Commands.{first_byte}
use craftsman_console.Execute.Benchmark.{Timer}
use craftsman_console.Turn.Dispatch.{execute_any-spare, execute_any-quiet}
use craftsman_console.Turn.Step.{
  Runtime, with_times, Play, benchmark_at, run_commands, Ending, paused, stepped, call_function,
  call_functions, store_objects, simulate, step_frame, run_frame, take_turn,
}

-- What all players' programs have in common.
pub record Shared : Type 0 where
  pub goal : ℕ
  pub world : World
  pub frame : ℕ
  pub store : RecordRw

abbrev pub shared_of : Play → Shared
shared_of p = record {
  goal = p.game.simulation_goal;
  world = p.world;
  frame = p.game.loop.frame;
  store = p.frame_store;
}

-- What a turn leaves of it, and how the turn ends.
abbrev pub shared_turn : Outcome (Ending × Play) → Outcome (Ending × Shared)
shared_turn turn = turn >>= λ (ending, p). ok (ending, shared_of p)

-- No command is a benchmark.
abbrev pub NoBenchmark : List (List ℕ) → Type 0
NoBenchmark [] = Unit
NoBenchmark (c ∷ cs) = ((first_byte (c ++ 0 ∷ []) == b'b') ≡ false) × NoBenchmark cs

-- The commands of a turn, none of which is a benchmark, each an object of its own.
run_texts : Runtime → List (List ℕ) → ℕ × World → Outcome (ℕ × World)
run_texts env [] state = ok state
run_texts env (c ∷ cs) state =
    execute_any env.machine env.signed ok (length c) (c ++ 0 ∷ []) state >>= run_texts env cs

then_step : Runtime → Shared → ℕ × World → Outcome (Ending × Shared)
then_step env s (goal, w) = elim (leb goal s.frame) [
  | true ↦ ok (paused, record s { goal = goal; world = w })
  | false ↦ simulate env w s.store >>= λ (w', store).
      ok (stepped, record s { goal = goal; world = w'; store = store })
]

-- A turn as a function of the commands.
turn_of : Runtime → List (List ℕ) → Shared → Outcome (Ending × Shared)
unfolding run_texts then_step
turn_of env cs s = run_texts env cs (s.goal, s.world) >>= then_step env s

run_commands-texts :
    (env : Runtime) (cs : List (List ℕ)) (pre spare : List ℕ) (start : ℕ) (state : ℕ × World)
    → start ≡ length pre
    → AllText cs
    → NoBenchmark cs
    → run_commands env (places start cs) (pre ++ (encode cs ++ spare)) state
      ≡ run_texts env cs state
unfolding run_commands run_texts
run_commands-texts env [] pre spare start state at t quiet = refl
run_commands-texts env (c ∷ cs) pre spare start state at t quiet =
    ap
      (λ b.
        execute_any env.machine env.signed (benchmark_at env start) (length c) b state
        >>= run_commands env (places (start + length c + 1) cs) (pre ++ (encode (c ∷ cs) ++ spare)))
      (drop-append start pre (encode (c ∷ cs) ++ spare) at ∙ append_assoc c (0 ∷ encode cs) spare)
    ∙ ap
        (λ o.
          o
          >>= run_commands env (places (start + length c + 1) cs)
              (pre ++ (encode (c ∷ cs) ++ spare)))
        (execute_any-spare c (encode cs ++ spare) t.0 env.machine env.signed
            (benchmark_at env start) state
          ∙ execute_any-quiet env.machine env.signed (benchmark_at env start) ok (length c)
              (c ++ 0 ∷ []) state quiet.0)
    ∙ bind_same _ _ (run_texts env cs) (λ state'.
      ap (λ b. run_commands env (places (start + length c + 1) cs) b state') (regroup (encode cs))
      ∙ run_commands-texts env cs ((pre ++ c) ++ 0 ∷ []) spare (start + length c + 1) state'
          (omega (arith, at, length-append (pre ++ c) (0 ∷ []), length-append pre c)) t.1 quiet.1)
  where
    regroup :
        (later : List ℕ)
        → pre ++ ((c ++ 0 ∷ later) ++ spare) ≡ ((pre ++ c) ++ 0 ∷ []) ++ (later ++ spare)
    regroup later = simp append_assoc

-- A program whose players' next commands are in their records.
pub record InTurn (p : Play) (parts : List Part) : Type 0 where
  pub recording : take p.player_count p.game_record ≡ entries parts
  pub ahead :
      ((command_preview
          (loop_input_queue_max p.game.loop)
          (take p.player_count p.game_record)).turn_nearest
        == 0)
      ≡ false
  pub reads : AllNext parts
  pub buffer : length p.frame_buffer ≡ frame_buf_len

step_frame-shared :
    (env : Runtime) (p : Play)
    → shared_turn (step_frame env p) ≡ then_step env (shared_of p) (p.game.simulation_goal, p.world)
unfolding step_frame then_step loop_frame
step_frame-shared env p = elim (Bool-cases (leb p.game.simulation_goal p.game.loop.frame)) [
  | inl e ↦ rw (step_frame, then_step, e) refl
  | inr e ↦ rw (step_frame, then_step, e) (bind_assoc (simulate env p.world p.frame_store) _ _)
]

take_turn_runs :
    (env : Runtime) (p : Play) (framed : Framed)
    → ((command_preview
          (loop_input_queue_max p.game.loop)
          (take p.player_count p.game_record)).turn_nearest
        == 0)
      ≡ false
    → command_frame (take p.player_count p.game_record) p.frame_buffer ≡ ok framed
    → take_turn env p ≡ run_frame env framed p
unfolding take_turn
take_turn_runs env p framed ahead gathered = rw (take_turn, ahead, gathered, ◌>>=◌) refl

run_frame-texts :
    (env : Runtime) (p : Play) (cs : List (List ℕ)) (spare : List ℕ) (recording : List RecordRw)
    → AllText cs
    → NoBenchmark cs
    → shared_turn (
        run_frame env
          (record {
            commands = some (places 0 cs);
            buffer = encode cs ++ spare;
            recording = recording;
          })
          p)
      ≡ turn_of env cs (shared_of p)
unfolding run_frame turn_of
run_frame-texts env p cs spare recording t quiet =
    bind_assoc
      (run_commands env (places 0 cs) (encode cs ++ spare) (p.game.simulation_goal, p.world)) _ _
    ∙ bind_same _ _ (then_step env (shared_of p)) (λ (goal, w). step_frame-shared env (record p {
      game = record p.game { simulation_goal = goal };
      world = w;
      game_record = recording ++ drop p.player_count p.game_record;
      frame_buffer = encode cs ++ spare;
    }))
    ∙ ap (λ m. m >>= then_step env (shared_of p))
        (run_commands-texts env cs [] spare 0 (p.game.simulation_goal, p.world) refl t quiet)

turn_lem :
    (env : Runtime) (p : Play) (parts : List Part)
    → InTurn p parts
    → AllText (commands_of parts)
    → NoBenchmark (commands_of parts)
    → length (encode (commands_of parts)) ≤ frame_buf_len
    → shared_turn (take_turn env p) ≡ turn_of env (commands_of parts) (shared_of p)
turn_lem env p parts i t quiet room =
    let (spare, framed) = command_frame-all parts p.frame_buffer i.reads i.buffer room in
    ap shared_turn (
      take_turn_runs env p _ i.ahead
        (ap (λ r. command_frame r p.frame_buffer) i.recording ∙ framed))
    ∙ run_frame-texts env p (commands_of parts) spare (moved_of parts) t quiet

module _ (env : Runtime) (timer : ℕ → Timer) (frame_timer : ℕ → ℕ × ℕ) where
  run_texts_same :
      (cs : List (List ℕ)) (state : ℕ × World)
      → run_texts (with_times timer frame_timer env) cs state ≡ run_texts env cs state
  unfolding run_texts
  run_texts_same [] state = refl
  run_texts_same (c ∷ cs) state =
      bind_same (execute_any env.machine env.signed ok (length c) (c ++ 0 ∷ []) state) _ _
        (run_texts_same cs)

  call_functions_same :
      (left i : ℕ) (w : World)
      → call_functions (with_times timer frame_timer env) left i w ≡ call_functions env left i w
  unfolding call_functions call_function
  call_functions_same zero i w = refl
  call_functions_same (suc left) i w =
      bind_same (call_function env i w) _ _ (call_functions_same left (i + 1))

  simulate_same :
      (w : World) (store : RecordRw)
      → simulate (with_times timer frame_timer env) w store ≡ simulate env w store
  unfolding simulate
  simulate_same w store = bind_same (global_var_ops env.machine w.globals) _ _ (λ vars.
      ap
        (λ m. m >>= λ called.
          store_objects env.allocator called.objects store >>= λ stored. ok (called, stored))
        (call_functions_same (length w.functions) 0 (record w { globals = vars })))

  then_step_same :
      (s : Shared) (state : ℕ × World)
      → then_step (with_times timer frame_timer env) s state ≡ then_step env s state
  unfolding then_step
  then_step_same s (goal, w) =
      ap
        (λ m. elim (leb goal s.frame) [
          | true ↦ ok (paused, record s { goal = goal; world = w })
          | false ↦
              m >>= λ (w', store). ok (stepped, record s { goal = goal; world = w'; store = store })
        ])
        (simulate_same w s.store)

  same_turn_of :
      (cs : List (List ℕ)) (s : Shared)
      → turn_of (with_times timer frame_timer env) cs s ≡ turn_of env cs s
  unfolding turn_of
  same_turn_of cs s =
      ap (λ m. m >>= then_step (with_times timer frame_timer env) s)
        (run_texts_same cs (s.goal, s.world))
      ∙ bind_same (run_texts env cs (s.goal, s.world)) _ (then_step env s) (then_step_same s)

-- Two players' programs, on the same machine, with the same library at the same addresses, and with the same
-- goal, world, frame and frame store, take the same turn where the same commands, which are strings that
-- fit the buffer and no benchmarks, are next in their records and neither stalls: it ends the same way,
-- with the same goal, world, frame and frame store, or crashes in both, or is undefined behaviour in
-- both, as it is where an operation on a variable has no type and its result is not written. It does not matter what else is in the records and the buffers,
-- how far either's records go, what its clock and its input queue are, and how long its calls take.
pub take_turn-lockstep :
    (env : Runtime) (timer : ℕ → Timer) (frame_timer : ℕ → ℕ × ℕ) (p q : Play)
    (parts others : List Part)
    → InTurn p parts
    → InTurn q others
    → commands_of parts ≡ commands_of others
    → AllText (commands_of parts)
    → NoBenchmark (commands_of parts)
    → length (encode (commands_of parts)) ≤ frame_buf_len
    → shared_of p ≡ shared_of q
    → shared_turn (take_turn env p) ≡ shared_turn (take_turn (with_times timer frame_timer env) q)
take_turn-lockstep env timer frame_timer p q parts others i j same t quiet room agree =
    turn_lem env p parts i t quiet room
    ∙ ap₂ (turn_of env) same agree
    ∙ sym (same_turn_of env timer frame_timer (commands_of others) (shared_of q))
    ∙ sym (
        turn_lem (with_times timer frame_timer env) q others j (subst AllText same t)
          (subst NoBenchmark same quiet)
          (subst (λ cs. length (encode cs) ≤ frame_buf_len) same room))
