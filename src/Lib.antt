-- ===== src/Lib.antt =====
-- craftsman_console: a console game loop that loads a library of functions, runs them frame by frame,
-- and keeps the players in step by sending each player's commands to all.
--
-- The parts, and how they interact:
--   record.c keeps a log of commands in one growing buffer, each with its terminator, and readers and
--     writers stand at offsets in it. Module Record has the operations; Record.Log, Record.Read,
--     Record.Growth and Record.Clone have what they do with a record that holds a list of commands.
--   network.c has the end points of connections. Module Network has the state and what is read of the
--     answers of poll and connect, which are arguments.
--   network_server.c runs in a thread for a single player: it sends each terminated message that it
--     reads back in a frame. Module Server has the loop; Server.Framing, Server.Stream and
--     Server.Routine read it as a function of the stream of bytes.
--   connection.c is the client: it takes the frames from its buffer and appends each command to the
--     record of the player that the frame names. Module Connection has the operations;
--     Connection.Frames, Connection.Delivery and Connection.Processing their effect on whole frames,
--     Connection.Start and Connection.Waiting how a connection begins. Module Loopback puts the server,
--     the connection and the record together.
--   execute.c cuts a command line into tokens (module Tokenize) and executes the commands (modules
--     Execute and Execute.Commands): they set parameters, bind results to variables, hash objects and
--     change variables. Module Global is global.c, the table of variables; module Dlfn is functor.c and
--     dlfn.c, the tables of the loaded library, which Dlfn.Open fills and orders (Dlfn.Symbols,
--     Dlfn.Sorting, Dlfn.Bounds); module Hash is hash.c. Module Number has strtol, and floating point as a parameter.
--     Execute.Benchmark is the benchmark, and Execute.Benchmark.Rounds what it does to the world.
--     Execute.Handles, Execute.Tables, Execute.Invoked, Execute.Parameters and Execute.Within have what the operations and
--     the commands keep of the tables' sizes.
--     Execute.Tokens, Execute.Results and Execute.Hashes have what the commands come to, Global.Lookup and
--     Global.Ops the table of variables and its operations.
--   platform_clock.c and loop.c pace the frames: modules Clock and Loop have the clock and the counters,
--     Clock.Pace and Loop.Frames the cadence that they keep, Clock.Samples the measurement of the
--     counter's speed, Clock.Sorting its sort and Clock.Median its result, and Clock.Lock the lock around it
--     (Clock.Lock.Tickets, Clock.Lock.Fair, Clock.Lock.Exclusion). Loop.Status has what is printed of the loop.
--   input.c cuts standard input into lines: module Input has the buffer and its operations, Input.Lines
--     the lines of a text, Input.Drain the loop over the buffer, Input.Poll one poll, and Input.Stream
--     polls as a function of the stream.
--   notify.c watches files: module Notify has its operations, Notify.Walk the events in its buffer, and
--     Notify.Events a poll. Module Stats is stats.c and float.c, on an arithmetic that is a parameter.
--   main.c makes a turn of the players' records: module Turn has its operations, Turn.Preview and
--     Turn.Frame what they come to, and Connection.Sync what a turn sends. Turn.Step is game_simulation's
--     turn, Turn.Iteration the whole body of its loop; Turn.Lockstep compares the turns of two
--     players' programs, Turn.Dispatch a command in two buffers, and Turn.Course whole courses. Turn.Pace
--     has the turns that wait, Turn.Typing what is typed, and Turn.Program starts and ends a simulation.
--     Turn.Main is game_simulation and main as a whole: Turn.Main.Stable and Turn.Main.Iterations have
--     what the iterations keep, Turn.Main.Queue the input queue in them, Turn.Main.Worlds (with
--     Turn.Worlds) the tables in them, and Turn.Main.Quit how the program ends. Turn.Prompt is the prompt.
--
-- Conventions. An object is the list of its bytes and a pointer is an offset in it; an access outside of
-- it is the result `fault`, as is what else C leaves undefined: the use of a value that was not written, a
-- division by zero, the overflow of an int. The macro CRASH of macro.h is `crash`. Unsigned numbers are natural
-- numbers, with each wrap written out as `% 2 ^ w`; signed ones are `ℤ` of Base.Int. malloc and realloc are
-- a parameter, with what the C standard says of them as the hypothesis IsAllocator. `char` is signed
-- or not by a parameter. The loops run on fuel in playback_from, processing_loop, drain and walk_events,
-- where each round takes a byte at least from what is left, so that the count of bytes is enough (in playback_from where the index does not wrap), and in
-- pad_input, which comes a command nearer to its target with each. Where the system's
-- answers drive a loop, as in server_routine, await_frame, game_loop and main_loop, it runs on the list
-- of the answers. The lock of platform_clock.c runs on a schedule of its threads' accesses.
--
-- Not modelled: system calls, the lines that other functions than the printing ones print on their way,
-- the end of the thread, and the test programs. What a printing function prints is a list of calls of
-- printf (module Print). A function of the library is an argument; it is taken to change nothing but
-- the library's objects.
pub mod Base
pub mod Print
pub mod Record
pub mod Hash
pub mod Network
pub mod Server
pub mod Connection
pub mod Loopback
pub mod Tokenize
pub mod Number
pub mod Global
pub mod Dlfn
pub mod Execute
pub mod Clock
pub mod Loop
pub mod Input
pub mod Notify
pub mod Stats
pub mod Turn
