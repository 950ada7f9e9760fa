-- ===== src/Tests/Codec.antt =====
-- Runs of src/file_monitor/ipc/codec.py.
use file_monitor.Prelude.{◌≡◌, refl, some, [], ◌∷◌, ok, err, unknown_message_type}
use file_monitor.Ipc.Messages.{Message, sender_hello, foreign}
use file_monitor.Ipc.Codec.{
  encode, decode, field_name_by_message_type, sender_hello_field_name, decode-encode,
}
use file_monitor.Tests.Wire.{wire}

abbrev hello : Message
hello = sender_hello (record { sender_id = 3; proto_hash = 1 ∷ 2 ∷ [] })

no_field : encode wire (foreign []) ≡ err unknown_message_type
unfolding encode field_name_by_message_type
no_field = refl

decode-hello :
    decode wire (wire.serialize (some (sender_hello_field_name, hello)))
    ≡ ok (sender_hello_field_name, hello)
unfolding encode field_name_by_message_type
decode-hello =
    decode-encode wire hello sender_hello_field_name
      (wire.serialize (some (sender_hello_field_name, hello))) refl refl
