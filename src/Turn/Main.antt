-- ===== src/Turn/Main.antt =====
-- main.c: game_simulation and main as a whole, on all that the system answers to them. Standard output is
-- left out.
pub mod Stable
pub mod Iterations
pub mod Queue
pub mod Quit
pub mod Worlds
pub mod Tests
use craftsman_console.Base.{
  ℕ, zero, suc, Bool, true, false, List, [], ◌∷◌, ◌++◌, Option, none, some, if◌then◌else◌,
  replicate, Outcome, ok, ◌>>=◌,
}
use craftsman_console.Base.Int.{ℤ}
use craftsman_console.Network.{PollFlags, Polled, Connected}
use craftsman_console.Record.{Record, RecordRw, record_alloc, record_to_disk, record_free}
use craftsman_console.Connection.{max_player}
use craftsman_console.Connection.Start.{
  EndPoints, connection_init_local, connection_init_host, connection_term,
}
use craftsman_console.Print.{Printed}
use craftsman_console.Connection.Print.{connection_print_stats}
use craftsman_console.Dlfn.Open.{Libc}
use craftsman_console.Loop.{Loop, loop_run}
use craftsman_console.Turn.{Game}
use craftsman_console.Turn.Step.{Runtime, Play}
use craftsman_console.Turn.Iteration.{Answers, Session, iteration}
use craftsman_console.Turn.Program.{
  Program, Opened, zero_offset, start_simulation, end_simulation, rewind, CommandOption, Settings,
  parse_options,
}

-- What comes after a part that may not be over when the answers end.
abbrev pub once_over {ℓ κ} :
    {A : Type ℓ} {B : Type κ} → Option A → (A → Outcome (Option B)) → Outcome (Option B)
once_over none f = ok none
once_over (some a) f = f a

-- The loop of `game_simulation`, on the answers for each iteration. `none`: they end before it does.
unfoldable pub game_loop : Runtime → PollFlags → List Answers → Session → Outcome (Option Session)
unfolding iteration loop_run
game_loop env flags [] s = elim (loop_run s.play.game.loop) [ false ↦ ok (some s) | true ↦ ok none ]
game_loop env flags (a ∷ answers) s = elim (loop_run s.play.game.loop) [
  | false ↦ ok (some s)
  | true ↦ iteration env flags a s >>= λ after. once_over after (game_loop env flags answers)
]

-- What the system answers in a simulation: at its start, in each iteration, and whether
-- "frame_store.bin" can be opened.
pub record Simulated : Type 0 where
  pub opened : Opened
  pub iterations : List Answers
  pub can_open : Bool

abbrev pub with_session : Session → Program → Program
with_session s prog = record prog { session = s }

-- What is written to "frame_store.bin", and the state.
unfoldable pub game_simulation :
    Libc
    → Runtime
    → PollFlags
    → ℕ
    → Simulated
    → Program
    → Outcome (Option (Option (List ℕ) × Program))
game_simulation libc env flags framerate a prog =
    start_simulation libc env framerate a.opened prog >>= λ started.
    game_loop env flags a.iterations started.session >>= λ over.
    once_over over (λ s. ok (some (end_simulation a.can_open (with_session s started))))

abbrev pub game_of : Program → Game
game_of prog = prog.session.play.game

abbrev pub rewound : Program → Program
rewound prog = record prog {
  session = record prog.session {
    play = record prog.session.play { game_record = rewind prog.session.play.game_record };
  };
}

-- The loop of `main`, on the answers in each simulation. What each writes to "frame_store.bin", and the
-- state.
unfoldable pub main_loop :
    Libc
    → Runtime
    → PollFlags
    → ℕ
    → List Simulated
    → Program
    → Outcome (Option (List (Option (List ℕ)) × Program))
main_loop libc env flags framerate [] prog = elim (game_of prog).exiting [
  | true ↦ ok (some ([], prog))
  | false ↦ ok none
]
main_loop libc env flags framerate (a ∷ simulations) prog = elim (game_of prog).exiting [
  | true ↦ ok (some ([], prog))
  | false ↦ game_simulation libc env flags framerate a prog >>= λ over.
      once_over over (λ (file, after).
        main_loop libc env flags framerate simulations (rewound after) >>= λ rest.
        once_over rest (λ (files, last). ok (some (file ∷ files, last))))
]

-- What the system answers to `connection_init`: socketpair, or getaddrinfo, socket, connect and poll.
pub record Dialled : Type 0 where
  pub pair : Option (ℤ × ℤ)
  pub found : Option (List ℕ)
  pub sfd : ℤ
  pub connected : Connected
  pub polled : List Polled

-- The argument is whether there is a host. The value that is returned, and the end points.
unfoldable pub connection_init :
    PollFlags → Bool → Dialled → EndPoints → Outcome (Option (Bool × EndPoints))
unfolding connection_init_local connection_init_host
connection_init flags false d eps = ok (some (true, connection_init_local d.pair eps))
connection_init flags true d eps =
    connection_init_host flags d.found d.sfd d.connected d.polled eps >>= λ over.
    once_over over (λ (ready, ep). ok (some (ready, record eps { client_ep = ep })))

-- What the system answers to the program: its options, and whether "frame_input.ascii" can be opened.
pub record System : Type 0 where
  pub options : List CommandOption
  pub dialled : Dialled
  pub simulations : List Simulated
  pub can_open : Bool

-- What the program leaves: its exit status, the contents of the files that it writes, the buffers of
-- the records that it frees and the descriptors that it closes at the end, and what it then prints.
pub record Exit : Type 0 where
  pub status : ℕ
  pub frame_stores : List (Option (List ℕ))
  pub frame_input : Option (List ℕ)
  pub freed : List (List ℕ)
  pub closed : List (Option ℤ)
  pub printed : List Printed

abbrev pub failure : Exit
failure = record {
  status = 1;
  frame_stores = [];
  frame_input = none;
  freed = [];
  closed = [];
  printed = [];
}

abbrev pub written_record : Bool → Option Record → Option (List ℕ)
written_record can_open none = none
written_record can_open (some rec) = record_to_disk rec can_open

-- The loop that frees the players' records.
unfoldable pub free_all : List RecordRw → List (List ℕ)
unfolding record_free
free_all [] = []
free_all (entry ∷ recording) = record_free entry.rec ++ free_all recording

-- `main` behind its loop
unfoldable pub finish :
    Bool → Bool → EndPoints → List (Option (List ℕ)) × Program → Outcome (Option (Exit × Program))
unfolding record_free free_all connection_term connection_print_stats
finish can_open multiplayer eps (files, prog) =
    let (client_fd, server_fd, last) =
      connection_term (record eps { client_ep = prog.session.connection.client_ep }) in
    ok (
      some (
        record {
          status = 0;
          frame_stores = files;
          frame_input = written_record can_open (game_of prog).input_rw.rec;
          freed = record_free (game_of prog).input_rw.rec ++ free_all prog.session.play.game_record;
          printed =
              if multiplayer
              then connection_print_stats
                  (record prog.session.connection { client_ep = last.client_ep })
              else [];
          closed = client_fd ∷ server_fd ∷ [];
        },
        record prog {
          session = record prog.session {
            play = record prog.session.play {
              game = record (game_of prog) {
                input_rw = record (game_of prog).input_rw { rec = none };
              };
            };
          };
        },
      ))

-- `(RecordRW_t){0}`
abbrev pub empty_rw : RecordRw
empty_rw = record { rec = none; read_offset = zero_offset; write_offset = zero_offset }

-- `main` once it is connected, on the options that it keeps.
unfoldable pub run_connected :
    Libc
    → Runtime
    → PollFlags
    → System
    → Settings
    → EndPoints
    → Program
    → Outcome (Option (Exit × Program))
run_connected libc env flags sys settings eps prog = record_alloc env.allocator >>= λ rec.
    main_loop libc env flags settings.framerate sys.simulations (begin rec) >>= λ over.
    once_over over (finish sys.can_open settings.multiplayer eps)
  where
    begin : Record → Program
    begin rec = record prog {
      session = record prog.session {
        connection = record prog.session.connection { client_ep = eps.client_ep };
        play = record prog.session.play {
          game_record = replicate max_player empty_rw;
          game = record (game_of prog) {
            loop = settings.loop;
            input_rw = record (game_of prog).input_rw { rec = some rec };
          };
        };
      };
    }

-- `none`: the answers end before the program does.
unfoldable pub run_main :
    Libc → Runtime → PollFlags → System → EndPoints → Program → Outcome (Option (Exit × Program))
run_main libc env flags sys eps prog = begin (
    parse_options sys.options
      (record { multiplayer = false; framerate = 10; loop = (game_of prog).loop }))
  where
    begin : Option Settings → Outcome (Option (Exit × Program))
    begin none = ok (some (failure, prog))
    begin (some settings) = connection_init flags settings.multiplayer sys.dialled eps >>= λ over.
        once_over over (λ (ready, eps'). elim ready [
          | false ↦ ok (some (failure, prog))
          | true ↦ run_connected libc env flags sys settings eps' prog
        ])
