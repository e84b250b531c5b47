-- ===== src/Turn/Program.antt =====
-- main.c: the start and the end of a simulation, and what main does around it. Standard output is left
-- out.
use craftsman_console.Base.{
  ℕ, min, Bool, true, List, [], ◌∷◌, Option, none, some, Outcome, ok, ◌>>=◌,
}
use craftsman_console.Record.{Record, RecordRw, Offset, record_alloc, record_to_disk}
use craftsman_console.Loop.{loop_init, loop_enable_yield, loop_shutdown}
use craftsman_console.Notify.{notify_init, notify_shutdown}
use craftsman_console.Input.{input_init, input_shutdown}
use craftsman_console.Stats.{stats_init_array}
use craftsman_console.Dlfn.{Library, max_symbols, dlfn_shutdown}
use craftsman_console.Dlfn.Open.{Libc, LinkMap, dlfn_init, dlfn_open}
use craftsman_console.Execute.{World, execute_init}
use craftsman_console.Loop.{Loop}
use craftsman_console.Turn.{game_players}
use craftsman_console.Turn.Step.{Runtime}
use craftsman_console.Turn.Iteration.{Session, dlpath}

-- `(RecordOffset_t){0}`
abbrev pub zero_offset : Offset
zero_offset = record { byte_count = 0; command_count = 0 }

-- The state of the program; the tables of the library are those of the world.
pub record Program : Type 0 where
  pub session : Session
  pub library : Library

-- The tables of dlfn.c are in `library` while these functions work on them.
abbrev pub library_of : Program → Library
library_of prog = record prog.library {
  functions = prog.session.play.world.functions;
  objects = prog.session.play.world.objects;
}

abbrev pub with_library : Library → World → World
with_library lib w = record w { functions = lib.functions; objects = lib.objects }

-- What the system answers at the start: the clock's measurement and counter, calloc and inotify, dlopen
-- and dlinfo.
pub record Opened : Type 0 where
  pub tsc_per_usec : ℕ
  pub now : ℕ
  pub fds_block : Bool
  pub wd_block : Bool
  pub watches : List (Option ℕ × Option ℕ)
  pub handle : Bool
  pub maps : Option (List LinkMap)

-- `game_simulation` up to its loop. None of the values returned is looked at.
unfoldable pub start_simulation : Libc → Runtime → ℕ → Opened → Program → Outcome Program
unfolding record_alloc execute_init loop_init notify_init dlfn_init dlfn_open input_init
    game_players stats_init_array
start_simulation libc env framerate a prog = record_alloc env.allocator >>= λ rec.
    loop_init a.tsc_per_usec a.now framerate prog.session.play.game.loop >>= λ loop.
    let s = prog.session in
    let lib = (dlfn_open libc a.handle a.maps (dlfn_init dlpath (library_of prog)).1).1 in
    ok (record {
      session = record s {
        play = record s.play {
          game = record s.play.game { simulation_goal = 0; loop = loop };
          world = with_library lib (execute_init s.play.world);
          player_count = game_players s.play.game_record;
          perf_stats = stats_init_array env.arithmetic max_symbols;
          frame_store = record {
            rec = some rec;
            read_offset = zero_offset;
            write_offset = zero_offset;
          };
        };
        watch = (notify_init a.fds_block a.wd_block a.watches s.watch).1;
        input = (input_init s.input).1;
      };
      library = lib;
    })

-- `game_simulation` behind its loop: what is written to "frame_store.bin", where that can be opened, and
-- the state.
unfoldable pub end_simulation : Bool → Program → Option (List ℕ) × Program
unfolding loop_shutdown notify_shutdown dlfn_shutdown input_shutdown record_to_disk
end_simulation can_open prog = (
  written s.play.frame_store.rec,
  record {
    session = record s {
      play = record s.play {
        game = record s.play.game { loop = loop_shutdown s.play.game.loop };
        world = with_library lib s.play.world;
        frame_store = record s.play.frame_store { rec = none };
      };
      watch = notify_shutdown s.watch;
      input = (input_shutdown s.input).1;
    };
    library = lib;
  },
)
  where
    s : Session
    s = prog.session

    lib : Library
    lib = dlfn_shutdown (library_of prog)

    written : Option Record → Option (List ℕ)
    written none = none
    written (some rec) = record_to_disk rec can_open

-- The loop of main over the players, between two simulations: each record is read from its start again.
unfoldable pub rewind : List RecordRw → List RecordRw
rewind [] = []
rewind (entry ∷ recording) = record entry { read_offset = zero_offset } ∷ rewind recording

-- The options as getopt gives them, with the argument of `-f` by strtoul.
pub data CommandOption : Type 0 where
  yield_option multiplayer_option unknown_option : CommandOption
  framerate_option : ℕ → CommandOption

-- What main keeps of them.
pub record Settings : Type 0 where
  pub multiplayer : Bool
  pub framerate : ℕ
  pub loop : Loop

-- The loop over the options. `none`: an unknown one ends the program.
unfoldable pub parse_options : List CommandOption → Settings → Option Settings
unfolding loop_enable_yield
parse_options [] s = some s
parse_options (yield_option ∷ opts) s =
    parse_options opts (record s { loop = loop_enable_yield s.loop })
parse_options (multiplayer_option ∷ opts) s = parse_options opts (record s { multiplayer = true })
parse_options (framerate_option n ∷ opts) s =
    parse_options opts (record s { framerate = min n 255 })
parse_options (unknown_option ∷ opts) s = none
