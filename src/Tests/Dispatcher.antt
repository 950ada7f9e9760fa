-- ===== src/Tests/Dispatcher.antt =====
-- Runs of src/file_monitor/services/dispatcher.py.
use file_monitor.Prelude.{
  ℕ, suc, ◌+◌, ◌≤◌, ◌≡◌, refl, some, List, [], ◌∷◌, ◌++◌, arith, length, pos, ok, ◌==◌,
  if◌then◌else◌,
}
use file_monitor.Python.Text.{Bytes, codes}
use file_monitor.Python.Hex.{hex, from_hex}
use file_monitor.Python.Paths.{join, is_absolute, relative_to}
use file_monitor.Python.TrueDivision.{ceil_true_div}
use file_monitor.Python.Equality.{nat_eq, list_beq}
use file_monitor.Domain.Models.{SenderId, ShardAssignment, block_size}
use file_monitor.Domain.Planning.{calculate_block_count, derive_shard_assignments, blocks_for_shard}
use file_monitor.Ipc.Codec.{encode, field_name_by_message_type}
use file_monitor.Services.Planner.{build_manifest, apply_shard, build_assign_session}
use file_monitor.Services.Dispatcher.{
  Sending, sent, unknown_sender, queue_full, Environment, Settings, State, deliver, make_payload,
  send_shards, send_to_senders,
}
use file_monitor.Services.Dispatcher.Delivery.{Attempt, traced, accepted, once, deliver-accepted}
use file_monitor.Services.Dispatcher.Session.{IsDispatched, send_to_senders-IsDispatched}
use file_monitor.Services.Dispatcher.Total.{IsSound, IsFile}
use file_monitor.Tests.Planning.{fec}
use file_monitor.Tests.Registry.{two_senders}
use file_monitor.Tests.Planner.{digest, any, watch_root, relative, file}
use file_monitor.Tests.Wire.{wire}

-- Sender 7 takes every message, the queue of sender 3 is full, and no other sender is known. The
-- state counts the calls.
answer : SenderId → Sending
answer sender_id =
    if sender_id == 7 then sent else if sender_id == 3 then queue_full else unknown_sender

unfoldable pub server : Environment ℕ
unfolding answer
server = record {
  send = λ sender_id payload n. (answer sender_id, suc n);
  during_hash = λ s. s;
  during_sleep = λ s. s;
}

abbrev pub settings : Settings
settings = record {
  ranges = any;
  protobuf = wire;
  fec_params = fec;
  watch_root = watch_root;
  target_host = codes "host";
  base_port = pos 9000;
}

abbrev start : State (ℕ × List Attempt)
start = record { registry = two_senders; ipc = (0, []); dispatched_sessions = []; log = [] }

abbrev pub plain : State ℕ
plain = record { registry = two_senders; ipc = 0; dispatched_sessions = []; log = [] }

abbrev assignment : ShardAssignment
assignment = record {
  sender_id = 3;
  shard_modulus = 1;
  shard_residue = 0;
  assigned_blocks = 0 ∷ [];
  target_port = pos 9000;
}

two_calls : (deliver server assignment (1 ∷ []) plain).1.ipc ≡ 2
unfolding deliver answer server
two_calls = refl

deliver-accepted_example :
    (accepted (deliver (traced server) assignment (1 ∷ []) start).1.ipc.1
      ≡ accepted start.ipc.1
        ++ once server 3 (1 ∷ []) (deliver (traced server) assignment (1 ∷ []) start).0)
    × (length (deliver (traced server) assignment (1 ∷ []) start).1.ipc.1 ≤ length start.ipc.1 + 2)
deliver-accepted_example = deliver-accepted server assignment (1 ∷ []) start

one_of_two :
    (send_to_senders (traced server) settings (codes "s") file (pos 3) (3 ∷ 7 ∷ []) start).0
    ≡ ok (some (7 ∷ []))
unfolding send_to_senders send_shards deliver answer make_payload derive_shard_assignments
    blocks_for_shard build_manifest apply_shard build_assign_session encode calculate_block_count
    block_size ceil_true_div hex from_hex relative_to list_beq field_name_by_message_type server
one_of_two = refl

send_to_senders-IsDispatched_example :
    IsDispatched server settings
      (codes "s")
      file
      3
      (3 ∷ 7 ∷ [])
      start
      (send_to_senders (traced server) settings (codes "s") file (pos 3) (3 ∷ 7 ∷ []) start).1
      (some (7 ∷ []))
send_to_senders-IsDispatched_example =
    send_to_senders-IsDispatched server settings (codes "s") file 3 (3 ∷ 7 ∷ []) start
      (some (7 ∷ [])) one_of_two

abbrev random_bytes : Bytes
random_bytes = 0 ∷ 1 ∷ 15 ∷ 16 ∷ 160 ∷ 171 ∷ 254 ∷ 255 ∷ []

settings-IsSound : IsSound settings
settings-IsSound = record {
  size = 1024;
  is_size = unfold block_size in refl;
  size_pos = omega arith;
  size_fits = omega arith;
  port = 8999;
  is_port = refl;
  manifests = λ m. refl;
  sessions = λ m. refl;
}

pub IsFile_lem :
    IsFile settings (record { path = file.path; size_bytes = pos 2500; file_hash = hex digest })
IsFile_lem = record {
  size = 2500;
  is_size = refl;
  small = omega arith;
  relative = relative;
  is_path = unfold join is_absolute in refl;
  not_absolute = unfold is_absolute in refl;
  no_dots = unfold list_beq in refl;
  digest = digest;
  is_hash = refl;
  length_digest = refl;
  bytes = ground arith;
}
