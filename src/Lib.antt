-- ===== src/Lib.antt =====
-- A model of the file monitor, the sending side of a one-way file transfer: it watches a directory,
-- plans how a file is cut into blocks, shares the blocks out among sender processes, and sends each
-- sender its shard over a Unix socket.
--
-- Prelude: shared helpers. Lists, tests and integers over the native numbers, and exceptions as
-- values (Result, whose Error has a constructor for each exception of the modelled code).
--
-- Python: what the program uses of its language. A float division is rounded to 53 bits, ties to
-- even (TrueDivision); a dict is an association list in the order of insertion (Dict); a path is a
-- root and parts (Paths); text is code points and bytes are numbers (Text, Hex); sets and `sorted`
-- are lists (Sets, Sorted, Names); `int` and `str` of numbers are in Decimal, where what Unicode says
-- of characters beyond ASCII is a parameter.
--
-- Domain: src/file_monitor/domain/. Models has the data classes and Planning the functions of
-- planning.py, under their names; a loop is structural recursion, and the comprehension over
-- enumerate(active_senders) is `assignments_from`. Count, Plans, Duplicates and Shards hold what is
-- proved of them.
--
-- Services: src/file_monitor/services/. Registry is SenderRegistry; the reading of the clock is an
-- argument, in whole units. History compares it with the list of all calls made so far. Planner is
-- planner.py; the random bytes are an argument. Dispatcher is SessionDispatcher: `_deliver`,
-- `_send_to_senders` and `dispatch` are state passing over the registry, the server, the recorded
-- sessions and the log. The server (IpcServer.send) and what other tasks of the event loop do while
-- the dispatcher sleeps or waits for a hash are the parameter Environment; the size and the hash of
-- the file are arguments that may be exceptions. `_deliver` makes at most two attempts, so its
-- recursion on the attempts that are left always ends. Watcher is the debouncing of
-- DirectoryWatcher: an event cancels and creates a task, the end of a sleep passes a path on, and a turn
-- of the generator takes the first of these paths.
--
-- Ipc: src/file_monitor/ipc/. Messages are records of the fields that the source names, Codec is
-- codec.py. The protobuf runtime is the parameter Protobuf, of which is used that an envelope with
-- one of its fields set survives serialising and parsing; the ranges of the fields are the parameter
-- Ranges.
--
-- Handshake is handshake.py: the hash of the contract over the sorted files, and its comparison.
-- Uds is the server of ipc/uds.py as a state with one function for each step of the event loop: a
-- connection is accepted, a frame is received (`_handle_peer`, the handshake included), a frame goes
-- through the `put` into the incoming queue, a frame is taken, a payload is written or fails, and a
-- payload is sent; `stop` is the end of `serve`. A connection is known by a number, which stands for its queue as well, so that the
-- test by `is` compares numbers. The queues hold 64 payloads and 256 frames, as in the source.
--
-- Supervision: src/file_monitor/supervision/. Supervisor has the loop of one child over the runs that
-- it observes, and shutdown over the table of processes. The loop ends with the list of runs, so it
-- needs no fuel. Children has the tasks of all children: a step is what one task does between two
-- awaits, and steps of tasks and of shutdown come in any order.
--
-- Config: src/file_monitor/config.py. The records and validate_config are in Config. Load is
-- load_config: a parsed file is a dict of sections, a section a dict of values (Values has what `int`
-- and `str` make of them), and the loop over ENV_OVERRIDES assigns to the sections. Settings says the
-- same without a loop, one setting at a time. The names are in Keys.
--
-- Adapters: src/file_monitor/adapters/. Blake3 is what the program uses of the package blake3, a
-- parameter of the model; Blake3Hasher is the loop over the chunks of a file, on fuel, which ends after
-- at most one turn more than the file has bytes. INotifyEvents is the generator of paths over the
-- batches of events that inotify gives; with it end the rounds that are made, so it needs no fuel.
--
-- Main: the handlers, the loop over incoming messages and the pipeline of src/file_monitor/main.py,
-- which join Ipc and Services, the dispatcher that a configuration sets up, and (Serving) the
-- dispatcher over the server of ipc/uds.py, which fills the parameter Environment. Process is `run` and
-- `main`: the exit status and the actions of the process, with what it finds as the record World. Tasks
-- is the task group of `run`, by events: a signal, a turn of the task that waits for it, the end of a
-- worker. Detected follows a file from the event that names it to its dispatch.
--
-- Tests: runs on concrete inputs, among them a wire format that grants what is asked of protobuf.
--
-- Not modelled: log lines other than the report of a partial failure; the parser of TOML;
-- the set-up of sockets and signal handlers; the adapters of the
-- clock and of processes, which are one call each; tests and scripts.
pub mod Prelude
pub mod Python
pub mod Domain
pub mod Ipc
pub mod Services
pub mod Adapters
pub mod Config
pub mod Supervision
pub mod Tests
pub mod Main
