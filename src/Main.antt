-- ===== src/Main.antt =====
-- src/file_monitor/main.py: the handlers of incoming messages, the two loops over messages and over
-- paths, and how the dispatcher is set up from a configuration.
pub mod Incoming
pub mod Configured
pub mod Serving
pub mod Process
pub mod Detected
pub mod Tasks
use file_monitor.Prelude.{
  ℕ, ◌≡◌, Option, none, some, List, [], ◌∷◌, ℤ, Result, ok, err, Error, ◌>>=◌, attribute_error,
}
use file_monitor.Python.Text.{Text, Bytes}
use file_monitor.Python.Equality.{nat_eq, list_eq}
use file_monitor.Python.Dict.{Dict, get}
use file_monitor.Python.Paths.{FilePath}
use file_monitor.Domain.Models.{SenderId}
use file_monitor.Ipc.Messages.{Message, session_complete, Ranges}
use file_monitor.Ipc.Codec.{
  Protobuf, decode, sender_hello_field_name, heartbeat_field_name, sender_progress_field_name,
  session_complete_field_name, local_congestion_field_name,
}
use file_monitor.Services.Registry.{register, refresh}
use file_monitor.Services.Dispatcher.{Environment, Settings, State, dispatch, complete_session}
use file_monitor.Config.{AppConfig}

-- The registry and the dispatcher are one state here. `now` is the reading of the clock that a handler
-- may make.
abbrev pub IncomingMessageHandler : Type 0 → Type 0
IncomingMessageHandler S = (now : ℕ) → SenderId → Message → State S → Result (State S)

-- what the server hands over: the sender, the frame, and the reading of the clock at that time
abbrev pub Frame : Type 0
Frame = SenderId × Bytes × ℕ

-- What one call of `dispatch` reads of the world, with its path.
pub record Detection : Type 0 where
  pub now : ℕ
  pub random_bytes : Bytes
  pub size : Result ℤ
  pub hash : Result Text
  pub path : FilePath

module _ (S : Type 0) where
  abbrev handle_sender_hello : IncomingMessageHandler S
  handle_sender_hello now sender_id message s =
      ok (record s { registry = register now sender_id s.registry })

  abbrev handle_heartbeat : IncomingMessageHandler S
  handle_heartbeat now sender_id message s =
      ok (record s { registry = refresh now sender_id s.registry })

  -- A message of another type has no `session_id`.
  abbrev handle_session_complete : IncomingMessageHandler S
  handle_session_complete now sender_id (session_complete m) s =
      ok (complete_session m.session_id s)
  handle_session_complete now sender_id _ s = err attribute_error

  -- `_make_log_and_ignore_handler`
  abbrev log_and_ignore : IncomingMessageHandler S
  log_and_ignore now sender_id message s = ok s

  abbrev pub incoming_message_handlers : Dict Text (IncomingMessageHandler S)
  incoming_message_handlers =
      (sender_hello_field_name, handle_sender_hello)
      ∷ (heartbeat_field_name, handle_heartbeat)
      ∷ (sender_progress_field_name, log_and_ignore)
      ∷ (session_complete_field_name, handle_session_complete)
      ∷ (local_congestion_field_name, log_and_ignore)
      ∷ []

  abbrev handle_with : Option (IncomingMessageHandler S) → IncomingMessageHandler S
  handle_with none now sender_id message s = ok s
  handle_with (some handler) now sender_id message s = handler now sender_id message s

  -- The body of the loop. A field name without a handler is only logged.
  unfoldable pub handle_frame : Protobuf → Frame → State S → Result (State S)
  handle_frame protobuf (sender_id, raw, now) s = do
    (field_name, message) ← decode protobuf raw
    handle_with (get incoming_message_handlers field_name) now sender_id message s

  -- The loop, with the state that it leaves when it is over or an exception ends it.
  unfoldable pub run_incoming_dispatch_loop :
      Protobuf → List Frame → State S → Result (Unit {0}) × State S
  run_incoming_dispatch_loop protobuf [] s = (ok tt, s)
  run_incoming_dispatch_loop protobuf (frame ∷ frames) s = elim (handle_frame protobuf frame s) [
    | err e ↦ (err e, s)
    | ok s' ↦ run_incoming_dispatch_loop protobuf frames s'
  ]

  -- An exception of `dispatch` is logged, and what was done before it stays.
  unfoldable pub run_detection_pipeline :
      Environment S → Settings → List Detection → State S → State S
  run_detection_pipeline env settings [] s = s
  run_detection_pipeline env settings (d ∷ ds) s =
      run_detection_pipeline env settings ds
        (dispatch env settings d.now d.random_bytes d.size d.hash d.path s).1

-- the arguments of SessionDispatcher in `run`
abbrev pub dispatcher_settings : Ranges → Protobuf → AppConfig → Settings
dispatcher_settings ranges protobuf config = record {
  ranges = ranges;
  protobuf = protobuf;
  fec_params = config.fec;
  watch_root = config.paths.watch_path;
  target_host = config.senders.target_host;
  base_port = config.senders.base_port;
}
