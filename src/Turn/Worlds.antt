-- ===== src/Turn/Worlds.antt =====
-- What a turn of main.c keeps of the sizes of the tables.
use craftsman_console.Base.{
  ℕ, zero, suc, ◌+◌, ◌≡◌, ◌∙◌, Bool-cases, inl, inr, List, [], ◌∷◌, ◌++◌, Option-cases, leb, ◌==◌,
  length, length-set, get_elem?, set, take, drop, arith, Outcome, ok, or_fault, ◌>>=◌, Always,
  bind-Always, any-Always,
}
use craftsman_console.Record.{RecordRw}
use craftsman_console.Global.{global_var_ops}
use craftsman_console.Loop.{loop_frame, loop_input_queue_max}
use craftsman_console.Execute.{World, call_load_param}
use craftsman_console.Execute.Commands.{
  first_byte, execute_simulation, execute_object, execute_condition, execute_mutation,
  execute_parameter, execute_result, execute_variable,
}
use craftsman_console.Execute.Tables.{IsWithin, with_vars-IsWithin}
use craftsman_console.Execute.Invoked.{
  call_load_param-IsWithin, call_store_result-IsWithin, length-global_var_ops,
}
use craftsman_console.Execute.Within.{
  execute_hash-IsWithin, execute_variable-IsWithin, execute_result-IsWithin,
  execute_mutation-IsWithin,
}
use craftsman_console.Execute.Parameters.{execute_parameter-IsWithin}
use craftsman_console.Execute.Benchmark.{functor_invoke}
use craftsman_console.Execute.Benchmark.Tables.{
  KeepsObjects, functor_invoke-IsWithin, execute_benchmark-IsWithin,
}
use craftsman_console.Turn.{Framed, command_preview, command_frame, execute_any}
use craftsman_console.Turn.Step.{
  Runtime, Play, Ending, benchmark_at, run_commands, call_function, call_functions, store_objects,
  simulate, stall, step_frame, run_frame, take_turn,
}

benchmark_at-IsWithin :
    (env : Runtime) (keeps : KeepsObjects env.call) (start : ℕ) (w : World)
    → IsWithin w
    → Always IsWithin (benchmark_at env start w)
unfolding benchmark_at
benchmark_at-IsWithin env keeps start w h =
    execute_benchmark-IsWithin env.machine env.arithmetic env.call keeps (env.timer start) w h

abbrev Within : ℕ × World → Type 0
Within (goal, w) = IsWithin w

-- A command that changes the world, and one that only reads it.
changes_world :
    (goal : ℕ) (m : Outcome World)
    → Always IsWithin m
    → Always (λ (goal', w'). IsWithin w') (m >>= λ w'. ok (goal, w'))
changes_world goal m h =
    bind-Always IsWithin (λ (goal', w'). IsWithin w') m (λ w'. ok (goal, w')) h (λ w' h'. h')

execute_any-IsWithin :
    (env : Runtime) (keeps : KeepsObjects env.call) (start len : ℕ) (input : List ℕ) (goal : ℕ)
    (w : World)
    → IsWithin w
    → Always
        (λ (goal', w'). IsWithin w')
        (execute_any env.machine env.signed (benchmark_at env start) len input (goal, w))
unfolding execute_any
execute_any-IsWithin env keeps start len input goal w h =
    elim (Bool-cases (first_byte input == b'b')) [
      | inl e ↦
          rw (execute_any, e)
            (changes_world goal (benchmark_at env start w)
              (benchmark_at-IsWithin env keeps start w h))
      | inr e ↦
          rw (execute_any, e)
            (elim (Bool-cases (first_byte input == b'c')) [
              | inl e ↦
                  rw e (any-Always Within (execute_condition env.machine len input w) _ (λ out. h))
              | inr e ↦ rw e (elim (Bool-cases (first_byte input == b'h')) [
                | inl e ↦ rw e (execute_hash-IsWithin env.signed w h)
                | inr e ↦ rw e (elim (Bool-cases (first_byte input == b'm')) [
                  | inl e ↦ rw e (
                      changes_world goal (execute_mutation env.machine len input w)
                        (execute_mutation-IsWithin env.machine len input w h))
                  | inr e ↦ rw e (elim (Bool-cases (first_byte input == b'o')) [
                    | inl e ↦ rw e (any-Always Within (execute_object len input w) _ (λ out. h))
                    | inr e ↦ rw e (elim (Bool-cases (first_byte input == b'p')) [
                      | inl e ↦ rw e (
                          changes_world goal (execute_parameter env.machine len input w)
                            (execute_parameter-IsWithin env.machine len input w h))
                      | inr e ↦ rw e (elim (Bool-cases (first_byte input == b'r')) [
                        | inl e ↦ rw e (
                            changes_world goal (execute_result len input w)
                              (execute_result-IsWithin len input w h))
                        | inr e ↦ rw e (elim (Bool-cases (first_byte input == b's')) [
                          | inl e ↦
                              rw e (any-Always Within (execute_simulation len input) _ (λ goal'. h))
                          | inr e ↦ rw e (elim (Bool-cases (first_byte input == b'v')) [
                            | inl e ↦ rw e (
                                changes_world goal (execute_variable env.machine len input w)
                                  (execute_variable-IsWithin env.machine len input w h))
                            | inr e ↦ rw e (h)
                          ])
                        ])
                      ])
                    ])
                  ])
                ])
              ])
            ])
    ]

run_commands-IsWithin :
    (env : Runtime) (keeps : KeepsObjects env.call) (commands : List (ℕ × ℕ)) (buffer : List ℕ)
    (state : ℕ × World)
    → Within state
    → Always Within (run_commands env commands buffer state)
unfolding run_commands
run_commands-IsWithin env keeps [] buffer state h = h
run_commands-IsWithin env keeps ((start, len) ∷ commands) buffer (goal, w) h =
    bind-Always Within Within
      (execute_any env.machine env.signed (benchmark_at env start) len (drop start buffer)
        (goal, w))
      _ (execute_any-IsWithin env keeps start len (drop start buffer) goal w h)
      (run_commands-IsWithin env keeps commands buffer)

call_function-IsWithin :
    (env : Runtime) (keeps : KeepsObjects env.call) (i : ℕ) (w : World)
    → IsWithin w
    → Always IsWithin (call_function env i w)
unfolding call_function
call_function-IsWithin env keeps i w h =
    bind-Always IsWithin IsWithin (call_load_param env.machine i w) _
      (call_load_param-IsWithin env.machine i w h)
      (λ loaded h₁. any-Always IsWithin (or_fault (get_elem? loaded.functions i)) _ (λ f.
        bind-Always Within IsWithin (functor_invoke env.call f.fnctor loaded) _
          (functor_invoke-IsWithin env.call keeps f.fnctor loaded h₁)
          (λ (r, called) h₂.
            call_store_result-IsWithin env.machine i
              (record called { result = set called.result i r })
              (record {
                vars = h₂.vars;
                functors = h₂.functors;
                used = h₂.used;
                results = length-set called.result i r ∙ h₂.results;
                loads = h₂.loads;
                saves = h₂.saves;
                rows = h₂.rows;
                save_handles = h₂.save_handles;
                functions = h₂.functions;
                objects = h₂.objects;
                hashes = h₂.hashes;
              }))))

call_functions-IsWithin :
    (env : Runtime) (keeps : KeepsObjects env.call) (left i : ℕ) (w : World)
    → IsWithin w
    → Always IsWithin (call_functions env left i w)
unfolding call_functions
call_functions-IsWithin env keeps zero i w h = h
call_functions-IsWithin env keeps (suc left) i w h =
    bind-Always IsWithin IsWithin (call_function env i w) _ (call_function-IsWithin env keeps i w h)
      (call_functions-IsWithin env keeps left (i + 1))

simulate-IsWithin :
    (env : Runtime) (keeps : KeepsObjects env.call) (w : World) (store : RecordRw)
    → IsWithin w
    → Always (λ (w', store'). IsWithin w') (simulate env w store)
unfolding simulate
simulate-IsWithin env keeps w store h =
    bind-Always (λ vars. length vars ≡ length w.globals) (λ (w', store'). IsWithin w')
      (global_var_ops env.machine w.globals) _ (length-global_var_ops env.machine w.globals)
      (λ vars same.
        bind-Always IsWithin (λ (w', store'). IsWithin w')
          (call_functions env (length w.functions) 0 (record w { globals = vars })) _
          (call_functions-IsWithin env keeps (length w.functions) 0 _
            (with_vars-IsWithin vars w (omega (arith, same, h.vars)) h))
          (λ called h'.
            any-Always (λ (w', store'). IsWithin w')
              (store_objects env.allocator called.objects store) _ (λ stored. h')))

abbrev pub KeepsWorld : Ending × Play → Type 0
KeepsWorld (ending, p) = IsWithin p.world

step_frame-IsWithin :
    (env : Runtime) (keeps : KeepsObjects env.call) (p : Play)
    → IsWithin p.world
    → Always KeepsWorld (step_frame env p)
unfolding step_frame
step_frame-IsWithin env keeps p h =
    elim (Bool-cases (leb p.game.simulation_goal (loop_frame p.game.loop))) [
      | inl e ↦ rw (step_frame, e) h
      | inr e ↦
          rw (step_frame, e)
            (bind-Always (λ (w', store'). IsWithin w') KeepsWorld
              (simulate env p.world p.frame_store) _
              (simulate-IsWithin env keeps p.world p.frame_store h) (λ (w, store) h'. h'))
    ]

run_frame-IsWithin :
    (env : Runtime) (keeps : KeepsObjects env.call) (framed : Framed) (p : Play)
    → IsWithin p.world
    → Always KeepsWorld (run_frame env framed p)
unfolding run_frame
run_frame-IsWithin env keeps framed p h = elim (Option-cases framed.commands) [
  | inl e ↦ rw (run_frame, e) tt
  | inr (commands, e) ↦
      rw (run_frame, e)
        (bind-Always Within KeepsWorld
          (run_commands env commands framed.buffer (p.game.simulation_goal, p.world)) _
          (run_commands-IsWithin env keeps commands framed.buffer (p.game.simulation_goal, p.world)
            h)
          (λ (goal, w) h'.
            step_frame-IsWithin env keeps
              (record p {
                game = record p.game { simulation_goal = goal };
                world = w;
                game_record = framed.recording ++ drop p.player_count p.game_record;
                frame_buffer = framed.buffer;
              })
              h'))
]

pub take_turn-IsWithin :
    (env : Runtime) (keeps : KeepsObjects env.call) (p : Play)
    → IsWithin p.world
    → Always KeepsWorld (take_turn env p)
unfolding take_turn stall loop_input_queue_max
take_turn-IsWithin env keeps p h =
    elim (Bool-cases (
      (command_preview (loop_input_queue_max p.game.loop)
        (take p.player_count p.game_record)).turn_nearest
      == 0)) [
        | inl e ↦ rw (take_turn, e) h
        | inr e ↦
            rw (take_turn, e)
              (any-Always KeepsWorld
                (command_frame (take p.player_count p.game_record) p.frame_buffer) _
                (λ framed. run_frame-IsWithin env keeps framed p h))
      ]
