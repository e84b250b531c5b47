-- ===== src/Turn/Main/Worlds.antt =====
-- The tables in all of main.c's simulation.
use craftsman_console.Base.{
  ℕ, ◌≤◌, ◌≡◌, List, Option-cases, inl, inr, length, ok, Always, bind-Always, any-Always, ok-Always,
}
use craftsman_console.Network.{PollFlags}
use craftsman_console.Record.{record_alloc}
use craftsman_console.Global.{max_variable}
use craftsman_console.Dlfn.{max_symbols}
use craftsman_console.Dlfn.Open.{Libc, dlfn_init, dlfn_open}
use craftsman_console.Dlfn.Bounds.{
  KeepsNumber, FewSymbols, dlfn_init-FewSymbols, dlfn_open-FewSymbols,
}
use craftsman_console.Execute.Benchmark.Tables.{KeepsObjects}
use craftsman_console.Notify.{notify_poll}
use craftsman_console.Input.{input_poll}
use craftsman_console.Loop.{loop_init, loop_write_frame}
use craftsman_console.Connection.Sync.{
  connection_sync, SyncStatus, conn_ok, conn_term, conn_change, conn_corrupt,
}
use craftsman_console.Execute.Handles.{AllHandles}
use craftsman_console.Execute.Tables.{IsWithin, execute_init-IsWithin}
use craftsman_console.Turn.Step.{Runtime, with_times, Play, Ending, take_turn, await_next}
use craftsman_console.Turn.Iteration.{
  Answers, Session, handle_events, handle_lines, pad_input, halt, end_turn, settle, take_input,
  synced_play, iteration, dlpath,
}
use craftsman_console.Turn.Program.{Program, Opened, library_of, with_library, start_simulation}
use craftsman_console.Turn.Worlds.{KeepsWorld, take_turn-IsWithin}
use craftsman_console.Turn.Main.Stable.{IfSome, map-IfSome}
use craftsman_console.Turn.Main.Iterations.{Reaches, begins, iterates}

end_turn-IsWithin :
    (readings : List (ℕ × ℕ)) (ending : Ending) (p : Play)
    → IsWithin p.world
    → IfSome (λ p'. IsWithin p'.world) (end_turn readings (ending, p))
unfolding end_turn
end_turn-IsWithin readings ending p h =
    elim (Option-cases (await_next ending readings p.game.loop)) [
      | inl e ↦ rw (end_turn, e) tt
      | inr (l, e) ↦ rw (end_turn, e) h
    ]

settle-IsWithin :
    (env : Runtime) (keeps_objects : KeepsObjects env.call) (readings : List (ℕ × ℕ))
    (status : SyncStatus) (p : Play)
    → IsWithin p.world
    → Always (IfSome (λ p'. IsWithin p'.world)) (settle env readings status p)
unfolding settle halt
settle-IsWithin env keeps_objects readings conn_corrupt p h = h
settle-IsWithin env keeps_objects readings conn_term p h = h
settle-IsWithin env keeps_objects readings conn_change p h = h
settle-IsWithin env keeps_objects readings conn_ok p h =
    bind-Always KeepsWorld (IfSome (λ p'. IsWithin p'.world)) (take_turn env p) _
      (take_turn-IsWithin env keeps_objects p h)
      (λ (ending, p') h'. end_turn-IsWithin readings ending p' h')

-- The handlers do not touch the world.
abbrev SameWorld : Session → Session → Type 0
SameWorld t t' = IsWithin t.play.world → IsWithin t'.play.world

take_input_same :
    (env : Runtime) (flags : PollFlags) (a : Answers) (t : Session)
    → Always (SameWorld t) (take_input env flags a t)
unfolding take_input
take_input_same env flags a t =
    any-Always (SameWorld t) (notify_poll flags a.watched a.watch_reads t.watch) _
      (λ (watching, events, watch).
        any-Always (SameWorld t) (handle_events events t.play.game) _ (λ changed.
          any-Always (SameWorld t) (input_poll flags a.typed_poll a.typed t.input) _
            (λ (typing, lines, input).
              any-Always (SameWorld t) (handle_lines env.allocator lines changed) _ (λ g.
                any-Always (SameWorld t)
                  (pad_input (loop_write_frame g.loop) env.allocator (loop_write_frame g.loop)
                    g.input_rw)
                  _ (λ entry h. h)))))

iteration-IsWithin :
    (env : Runtime) (keeps_objects : KeepsObjects env.call) (flags : PollFlags) (a : Answers)
    (t : Session)
    → IsWithin t.play.world
    → Always (IfSome (λ t'. IsWithin t'.play.world)) (iteration env flags a t)
unfolding iteration synced_play
iteration-IsWithin env keeps_objects flags a t h =
    bind-Always (SameWorld t) (IfSome (λ t'. IsWithin t'.play.world)) (take_input env flags a t) _
      (take_input_same env flags a t)
      (λ t₁ keeps.
        any-Always (IfSome (λ t'. IsWithin t'.play.world))
          (connection_sync flags a.net_poll a.net_read a.written env.allocator env.signed
            (loop_write_frame t₁.play.game.loop) t₁.connection t₁.play.game.input_rw
            t₁.play.game_record)
          _
          (λ synced.
            bind-Always (IfSome (λ p. IsWithin p.world)) (IfSome (λ t'. IsWithin t'.play.world))
              (settle (with_times a.timer a.frame_timer env) a.readings synced.status
                (synced_play synced t₁.play))
              _
              (settle-IsWithin (with_times a.timer a.frame_timer env) keeps_objects a.readings
                synced.status (synced_play synced t₁.play) (keeps h))
              (λ after h₂.
                map-IfSome (λ t'. IsWithin t'.play.world)
                  (λ p. record t₁ { play = p; connection = synced.connection }) after h₂)))

Reaches-IsWithin :
    {env : Runtime} {flags : PollFlags} {answers : List Answers} {t u : Session}
    → KeepsObjects env.call
    → IsWithin t.play.world
    → Reaches env flags answers t u
    → IsWithin u.play.world
Reaches-IsWithin keeps_objects h begins = h
Reaches-IsWithin {env = env} {flags = flags} keeps_objects h (iterates a running next r) =
    Reaches-IsWithin keeps_objects
      (ok-Always (IfSome (λ t'. IsWithin t'.play.world)) _ _ next
        (iteration-IsWithin env keeps_objects flags a _ h))
      r

start_simulation-IsWithin :
    (libc : Libc) (env : Runtime) (framerate : ℕ) (a : Opened) (prog : Program)
    → length prog.session.play.world.globals ≤ max_variable
    → length prog.session.play.world.save_result_handle ≡ max_symbols
    → AllHandles prog.session.play.world.save_result_handle
    → FewSymbols (library_of prog)
    → length prog.session.play.world.hash_objects ≡ max_symbols
    → KeepsNumber libc
    → Always
        (λ started. IsWithin started.session.play.world)
        (start_simulation libc env framerate a prog)
unfolding start_simulation
start_simulation-IsWithin libc env framerate a prog few saved handles symbols hashes sorts =
    any-Always (λ started. IsWithin started.session.play.world) (record_alloc env.allocator) _
      (λ rec.
        any-Always (λ started. IsWithin started.session.play.world)
          (loop_init a.tsc_per_usec a.now framerate prog.session.play.game.loop) _
          (λ loop.
            let named = (dlfn_init dlpath (library_of prog)).1 in
            let lib = (dlfn_open libc a.handle a.maps named).1 in
            let fit =
              dlfn_open-FewSymbols libc a.handle a.maps named sorts
                (dlfn_init-FewSymbols dlpath (library_of prog) symbols) in
            let h =
              execute_init-IsWithin (with_library lib prog.session.play.world) few saved handles
                fit.0 fit.1 hashes in
            record {
              vars = h.vars;
              functors = h.functors;
              used = h.used;
              results = h.results;
              loads = h.loads;
              saves = h.saves;
              rows = h.rows;
              save_handles = h.save_handles;
              functions = h.functions;
              objects = h.objects;
              hashes = h.hashes;
            }))

-- In each state that a simulation comes to, whatever is typed and received and however long the library's
-- functions take: each array of execute.c has its size, as each row of load_param_handle has, the numbers
-- of variables, of functors and of the library's functions and objects are within theirs, so that there
-- is an entry for each of these, and each handle that a call goes through is an index in the array of
-- functors or the -1 of a full table. A call of a function leaves as many objects as there were, qsort
-- leaves as many entries, and before the simulation the same has to hold of the variables, of
-- the library's tables, and of hash_objects and save_result_handle, which execute_init does not clear.
pub start_simulation-tables :
    (libc : Libc) (env : Runtime) (flags : PollFlags) (framerate : ℕ) (a : Opened)
    (prog started : Program) (answers : List Answers) (t : Session)
    → length prog.session.play.world.globals ≤ max_variable
    → length prog.session.play.world.save_result_handle ≡ max_symbols
    → AllHandles prog.session.play.world.save_result_handle
    → FewSymbols (library_of prog)
    → length prog.session.play.world.hash_objects ≡ max_symbols
    → KeepsNumber libc
    → KeepsObjects env.call
    → start_simulation libc env framerate a prog ≡ ok started
    → Reaches env flags answers started.session t
    → IsWithin t.play.world
start_simulation-tables libc env flags framerate a prog started answers t few saved handles symbols
      hashes sorts keeps_objects start r =
    Reaches-IsWithin keeps_objects
      (ok-Always (λ s. IsWithin s.session.play.world) _ started start
        (start_simulation-IsWithin libc env framerate a prog few saved handles symbols hashes
          sorts))
      r
