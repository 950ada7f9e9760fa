-- ===== src/Ipc/Codec.antt =====
-- src/file_monitor/ipc/codec.py, message_types.py and the field names of constants.py. The protobuf
-- runtime is a parameter.
use file_monitor.Prelude.{
  ◌≡◌, Option, none, some, arith, Result, ok, err, unknown_message_type, decode_error,
  envelope_empty,
}
use file_monitor.Python.Text.{Text, Bytes, codes}
use file_monitor.Ipc.Messages.{
  Message, sender_hello, heartbeat, sender_progress, session_complete, local_congestion,
  assign_session, update_rate, abort, foreign, Envelope,
}

abbrev pub sender_hello_field_name : Text
sender_hello_field_name = codes "sender_hello"

abbrev pub heartbeat_field_name : Text
heartbeat_field_name = codes "heartbeat"

abbrev pub sender_progress_field_name : Text
sender_progress_field_name = codes "sender_progress"

abbrev pub session_complete_field_name : Text
session_complete_field_name = codes "session_complete"

abbrev pub local_congestion_field_name : Text
local_congestion_field_name = codes "local_congestion"

abbrev pub assign_session_field_name : Text
assign_session_field_name = codes "assign_session"

abbrev pub update_rate_field_name : Text
update_rate_field_name = codes "update_rate"

abbrev pub abort_field_name : Text
abort_field_name = codes "abort"

-- FIELD_NAME_BY_MESSAGE_TYPE; `none` is the KeyError
unfoldable pub field_name_by_message_type : Message → Option Text
field_name_by_message_type (sender_hello m) = some sender_hello_field_name
field_name_by_message_type (heartbeat m) = some heartbeat_field_name
field_name_by_message_type (sender_progress m) = some sender_progress_field_name
field_name_by_message_type (session_complete m) = some session_complete_field_name
field_name_by_message_type (local_congestion m) = some local_congestion_field_name
field_name_by_message_type (assign_session m) = some assign_session_field_name
field_name_by_message_type (update_rate m) = some update_rate_field_name
field_name_by_message_type (abort m) = some abort_field_name
field_name_by_message_type (foreign m) = none

-- The protobuf runtime: SerializeToString, and ParseFromString, where `none` is a DecodeError. What
-- it documents is that an envelope which holds one of its fields survives the two.
pub record Protobuf : Type 0 where
  pub serialize : Envelope → Bytes
  pub parse : Bytes → Option Envelope
  pub parse-serialize :
      (message : Message) (field_name : Text)
      → field_name_by_message_type message ≡ some field_name
      → parse (serialize (some (field_name, message))) ≡ some (some (field_name, message))

encode_named : Protobuf → Message → Option Text → Result Bytes
encode_named protobuf payload none = err unknown_message_type
encode_named protobuf payload (some field_name) =
    ok (protobuf.serialize (some (field_name, payload)))

unfoldable pub encode : Protobuf → Message → Result Bytes
unfolding encode_named
encode protobuf payload = encode_named protobuf payload (field_name_by_message_type payload)

which_oneof : Option Envelope → Result (Text × Message)
which_oneof none = err decode_error
which_oneof (some none) = err envelope_empty
which_oneof (some (some named)) = ok named

unfoldable pub decode : Protobuf → Bytes → Result (Text × Message)
unfolding which_oneof
decode protobuf raw = which_oneof (protobuf.parse raw)

-- Whatever can be encoded is decoded again to the same message under its own field name.
pub decode-encode :
    (protobuf : Protobuf) (message : Message) (field_name : Text) (raw : Bytes)
    → field_name_by_message_type message ≡ some field_name
    → encode protobuf message ≡ ok raw
    → decode protobuf raw ≡ ok (field_name, message)
unfolding encode decode
decode-encode protobuf message field_name raw named e =
    ground (arith, protobuf.parse-serialize message field_name named)
