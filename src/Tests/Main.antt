-- ===== src/Tests/Main.antt =====
-- Runs of src/file_monitor/main.py and of config.py.
use file_monitor.Prelude.{
  ℕ, ◌≡◌, ◌↔◌, refl, some, List, [], ◌∷◌, ◌++◌, pos, ok, err, decode_error, symbol_too_long,
  bad_fec_order,
}
use file_monitor.Python.Text.{Bytes, codes}
use file_monitor.Python.Paths.{parse}
use file_monitor.Ipc.Messages.{sender_hello, session_complete}
use file_monitor.Ipc.Codec.{
  encode, decode, sender_hello_field_name, session_complete_field_name, field_name_by_message_type,
}
use file_monitor.Config.{AppConfig, directory, validate_config}
use file_monitor.Config.Valid.{IsValid, IsWatchable, validate_config_iff}
use file_monitor.Main.{Frame, run_incoming_dispatch_loop}
use file_monitor.Main.Incoming.{Letter, effects, AreFrames, run_incoming_dispatch_loop_lem}
use file_monitor.Tests.Planning.{fec}
use file_monitor.Tests.Planner.{watch_root}
use file_monitor.Tests.Wire.{wire, serialize}
use file_monitor.Tests.Wire
use file_monitor.Tests.Dispatcher.{plain}

abbrev config : AppConfig
config = record {
  paths = record { watch_path = watch_root; socket_path = parse (codes "/run/nexus.sock") };
  pacing = record { rate_ceiling_bps = pos 20000000; rate_floor_bps = pos 5000000 };
  fec = fec;
  senders = record {
    target_host = codes "host";
    base_port = pos 9000;
    binary_path = codes "/bin/nexus-sender";
    sender_count = pos 3;
  };
}

accepted : validate_config directory config ≡ ok tt
unfolding validate_config
accepted = refl

long_symbols :
    validate_config directory (record config { fec = record fec { symbol_bytes = pos 1443 } })
    ≡ err symbol_too_long
unfolding validate_config
long_symbols = refl

no_repair :
    validate_config directory (record config { fec = record fec { k = pos 6 } }) ≡ err bad_fec_order
unfolding validate_config
no_repair = refl

validate_config_iff_example :
    (validate_config directory config ≡ ok tt) ↔ (IsWatchable directory × IsValid config)
validate_config_iff_example = validate_config_iff directory config

abbrev letters : List Letter
letters =
    (3, sender_hello (record { sender_id = 3; proto_hash = [] }), 20)
    ∷ (7, session_complete (record { session_id = codes "s" }), 21)
    ∷ []

abbrev frames : List Frame
frames =
    (
      3,
      wire.serialize (
          some (sender_hello_field_name, sender_hello (record { sender_id = 3; proto_hash = [] }))),
      20,
    )
    ∷ (
      7,
      wire.serialize (
          some (session_complete_field_name, session_complete (record { session_id = codes "s" }))),
      21,
    )
    ∷ []

letters-AreFrames : AreFrames wire letters frames
unfolding encode field_name_by_message_type
letters-AreFrames = (refl, refl, refl, (refl, refl, refl, tt))

-- no message starts with 99
undecodable : decode wire (99 ∷ []) ≡ err decode_error
unfolding decode Wire.parse
undecodable = refl

run_incoming_dispatch_loop_lem_example :
    (run_incoming_dispatch_loop ℕ wire frames plain ≡ (ok tt, effects ℕ letters plain))
    × (run_incoming_dispatch_loop ℕ wire (frames ++ (3, 99 ∷ [], 22) ∷ frames) plain
        ≡ (err decode_error, effects ℕ letters plain))
run_incoming_dispatch_loop_lem_example =
    run_incoming_dispatch_loop_lem wire letters frames frames plain 3 (99 ∷ []) 22 decode_error
      letters-AreFrames undecodable

abbrev pub random_bytes : Bytes
random_bytes = 1 ∷ 2 ∷ 3 ∷ 4 ∷ 5 ∷ 6 ∷ 7 ∷ 8 ∷ []
