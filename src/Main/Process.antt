-- ===== src/Main/Process.antt =====
-- src/file_monitor/main.py: the specifications of the sender processes, `run` and `main`, with the exit
-- status of the program. Supervision is that of src/file_monitor/supervision/supervisor.py.
pub mod Specs
pub mod Status
use file_monitor.Prelude.{
  ℕ, ◌≡◌, Bool, true, false, Option, none, some, List, [], ◌∷◌, ◌++◌, map, null, range, ℤ, pos,
  pos_part, if◌then◌else◌, Result, ok, err, Error, zero_division, overflow, index_error, key_error,
  attribute_error, type_error, handshake_error, proto_hash_mismatch, unknown_sender,
  send_queue_full, unknown_message_type, decode_error, consumer_ended,
}
use file_monitor.Python.Text.{Text, Bytes, codes}
use file_monitor.Python.Equality.{nat_eq, list_eq}
use file_monitor.Python.Dict.{Dict, get}
use file_monitor.Python.Paths.{FilePath}
use file_monitor.Python.Decimal.{Unicode, decimal}
use file_monitor.Adapters.Blake3.{Blake3}
use file_monitor.Ipc.Handshake.{compute_proto_hash}
use file_monitor.Ipc.Handshake
use file_monitor.Config.{AppConfig, Entry}
use file_monitor.Config.Load.{Document, Environ, load_config}
use file_monitor.Config.Load.Keys.{
  nexus_config_env_var, default_config_path, proto_contract_dir_env_var, default_proto_contract_dir,
  config_error_exit_code,
}
use file_monitor.Supervision.Supervisor.{ChildSpec}

-- the specification of the sender with this index
abbrev pub sender_spec : AppConfig → ℕ → ChildSpec
sender_spec config index = record {
  name = codes "sender-" ++ decimal index;
  argv = config.senders.binary_path ∷ codes "--sender-id" ∷ decimal index ∷ [];
  env = none;
}

-- `range` of a negative number is empty.
unfoldable pub build_sender_specs : AppConfig → List ChildSpec
build_sender_specs config = map (sender_spec config) (range (pos_part config.senders.sender_count))

-- How the task group of `run` ends: with the exceptions of its tasks, cancellations aside.
abbrev pub Ending : Type 0
Ending = List Error

-- `exit_code`: the exception handlers behind the task group.
abbrev pub exit_code_of : Ending → ℕ
exit_code_of exceptions = if null exceptions then 0 else 1

-- what the process does, as far as others see it
pub data Action : Type 0 where
  -- the tasks run, with the hash that senders must show and the processes that are supervised
  runs_tasks : (expected_proto_hash : Bytes) (specs : List ChildSpec) → Action
  shuts_down_supervisor : Action
  unlinks_socket : (socket_path : FilePath) → Action

-- What the process finds: the environment, the files, and how what it starts goes.
pub record World : Type 0 where
  pub environment : Environ
  pub read : Text → Result Document
  pub directory_of : Text → FilePath
  pub entry : FilePath → Entry
  pub proto_contract : Text → Option (List Handshake.Entry)
  pub watch : FilePath → Result (Unit {0})
  pub tasks : Bytes → AppConfig → Ending
  pub unlink : FilePath → Result (Unit {0})

abbrev get_or : Dict Text Text → Text → Text → Text
get_or environment key default = elim (get environment key) [ none ↦ default | some t ↦ t ]

-- The exit status and the actions before it, or the exception that ends the process.
abbrev pub Run : Type 0
Run = Result ℕ × List Action

abbrev unlinked : Result (Unit {0}) → ℕ → Result ℕ
unlinked (err e) exit_code = err e
unlinked (ok done) exit_code = ok exit_code

-- The task group, with what follows it whatever its end.
abbrev run_tasks : World → AppConfig → Bytes → Run
run_tasks world config expected_proto_hash = (
  unlinked (world.unlink config.paths.socket_path)
      (exit_code_of (world.tasks expected_proto_hash config)),
  runs_tasks expected_proto_hash (build_sender_specs config)
      ∷ shuts_down_supervisor
      ∷ unlinks_socket config.paths.socket_path
      ∷ [],
)

abbrev run_watching : World → AppConfig → Bytes → Result (Unit {0}) → Run
run_watching world config expected_proto_hash (err e) = (err e, [])
run_watching world config expected_proto_hash (ok done) = run_tasks world config expected_proto_hash

abbrev run_with : World → AppConfig → Result Bytes → Run
run_with world config (err e) = (err e, [])
run_with world config (ok expected_proto_hash) =
    run_watching world config expected_proto_hash (world.watch config.paths.watch_path)

abbrev run_in : Blake3 → World → AppConfig → Option (List Handshake.Entry) → Run
run_in blake3 world config none = (ok 1, [])
run_in blake3 world config (some proto_dir) =
    run_with world config (compute_proto_hash blake3 proto_dir)

-- the directory of the contract, if it is one
abbrev pub contract_of : World → Option (List Handshake.Entry)
contract_of world =
    world.proto_contract
      (get_or world.environment proto_contract_dir_env_var default_proto_contract_dir)

unfoldable pub run : Blake3 → World → AppConfig → Run
run blake3 world config = run_in blake3 world config (contract_of world)

-- Is the exception a ValueError or an OSError?
abbrev pub is_config_error : Error → Bool
is_config_error zero_division = false
is_config_error overflow = false
is_config_error index_error = false
is_config_error key_error = false
is_config_error attribute_error = false
is_config_error type_error = false
is_config_error unknown_message_type = false
is_config_error decode_error = false
is_config_error consumer_ended = false
is_config_error (handshake_error field_name) = false
is_config_error (proto_hash_mismatch sender_id) = false
is_config_error (unknown_sender sender_id) = false
is_config_error (send_queue_full sender_id) = false
is_config_error _ = true

abbrev pub main_with : Blake3 → World → Result AppConfig → Run
main_with blake3 world (err e) =
    if is_config_error e then (ok (pos_part config_error_exit_code), []) else (err e, [])
main_with blake3 world (ok config) = run blake3 world config

-- the configuration that `main` loads
abbrev pub loaded : Unicode → World → Result AppConfig
loaded unicode world =
    let config_path = get_or world.environment nexus_config_env_var default_config_path in
    load_config unicode (world.read config_path) (world.directory_of config_path) world.environment
      world.entry

unfoldable pub main : Unicode → Blake3 → World → Run
main unicode blake3 world = main_with blake3 world (loaded unicode world)
