-- ===== src/Ipc/Messages.antt =====
-- The protobuf messages that src/file_monitor/ builds and reads. Their classes are generated from
-- .proto files of another repository: what is kept here is the fields that the source names. A
-- message of which it reads no field is its bytes.
use file_monitor.Prelude.{ℕ, Bool, ℤ, Option}
use file_monitor.Python.Text.{Text, Bytes}

pub record Manifest : Type 0 where
  pub session_id : Text
  pub filepath : Text
  pub file_size : ℤ
  pub file_hash : Bytes
  pub k : ℤ
  pub n : ℤ
  pub block_bytes : ℤ
  pub total_blocks : ℤ
  pub sender_bps_limit : ℤ
  pub sender_id : ℤ

pub record AssignSession : Type 0 where
  pub manifest : Manifest
  pub total_senders : ℤ
  pub target_host : Text
  pub target_port : ℤ
  pub source_path : Text

pub record SenderHello : Type 0 where
  pub sender_id : ℕ
  pub proto_hash : Bytes

pub record SessionComplete : Type 0 where
  pub session_id : Text

-- `foreign` is a message of a class that the source does not name.
pub data Message : Type 0 where
  sender_hello : SenderHello → Message
  heartbeat sender_progress : Bytes → Message
  session_complete : SessionComplete → Message
  local_congestion : Bytes → Message
  assign_session : AssignSession → Message
  update_rate abort foreign : Bytes → Message

-- An Envelope: its oneof group `msg` holds nothing, or a field by its name.
abbrev pub Envelope : Type 0
Envelope = Option (Text × Message)

-- Which values the generated classes take: a number has to fit its field.
pub record Ranges : Type 0 where
  pub manifest_fits : Manifest → Bool
  pub assign_session_fits : AssignSession → Bool
