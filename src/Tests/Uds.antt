-- ===== src/Tests/Uds.antt =====
-- Runs of src/file_monitor/ipc/uds.py.
use file_monitor.Prelude.{ℕ, pos, ◌≡◌, ◌≢◌, ◌↔◌, refl, some, none, List, [], ◌∷◌, ok, true}
use file_monitor.Python.Text.{Bytes}
use file_monitor.Python.Equality.{nat_eq, list_beq}
use file_monitor.Python.Dict.{get, put}
use file_monitor.Ipc.Messages.{SenderHello, sender_hello}
use file_monitor.Ipc.Codec.{decode, sender_hello_field_name}
use file_monitor.Ipc.Uds.{
  Connection, UdsIpcServer, init, accept, close, stop, receive, put_incoming, send,
  complete_handshake,
}
use file_monitor.Ipc.Handshake.{verify_proto_hash}
use file_monitor.Ipc.Uds.Live.{IsValid}
use file_monitor.Ipc.Uds.Steps.{Event, accepts, receives, puts, run, run-IsValid}
use file_monitor.Ipc.Uds.Stopped.{stop_lem}
use file_monitor.Ipc.Uds.Peers.{complete_handshake_iff, peers-close, IsSending, send_lem}
use file_monitor.Services.Dispatcher.{State, unknown_sender}
use file_monitor.Main.{Detection}
use file_monitor.Python.Hex.{hex}
use file_monitor.Tests.Planner.{digest, file}
use file_monitor.Tests.Registry.{two_senders}
use file_monitor.Tests.Wire.{wire, parse, serialize}

abbrev hash : Bytes
hash = 5 ∷ 6 ∷ []

-- sender 3 says hello
abbrev hello : Bytes
hello =
    wire.serialize
      (some (sender_hello_field_name, sender_hello (record { sender_id = 3; proto_hash = hash })))

-- sender 3 connects, is heard, and connects again before its first connection has ended
abbrev twice : List Event
twice = accepts ∷ receives 0 hello ∷ puts 0 ∷ accepts ∷ receives 1 hello ∷ puts 1 ∷ []

abbrev server : UdsIpcServer
server = run wire twice (init hash)

run-IsValid_example : IsValid (run wire twice (init hash))
run-IsValid_example = run-IsValid wire hash twice

newest : get server.peers 3 ≡ some 1
unfolding run accept receive put_incoming complete_handshake verify_proto_hash get put list_beq
    decode parse serialize
newest = refl

stop_lem_example :
    (get (stop server).connections 1 ≡ none)
    × (send 3 (9 ∷ []) (stop server) ≡ (unknown_sender, stop server))
stop_lem_example = stop_lem wire hash twice 1 3 (9 ∷ [])

abbrev first_connection : Connection
first_connection = record {
  sender_id = some 3;
  send_queue = [];
  writer_running = true;
  pending = none;
}

first_open : get server.connections 0 ≡ some first_connection
unfolding run accept receive put_incoming complete_handshake verify_proto_hash get put list_beq
    decode parse serialize
first_open = refl

said_hello :
    decode wire hello
    ≡ ok (sender_hello_field_name, sender_hello (record { sender_id = 3; proto_hash = hash }))
unfolding decode parse serialize
said_hello = refl

complete_handshake_iff_example : (complete_handshake wire hash hello ≡ ok 3) ↔ (
    (m : SenderHello) × (decode wire hello ≡ ok (sender_hello_field_name, sender_hello m))
    × (m.proto_hash ≡ hash)
    × (m.sender_id ≡ 3))
complete_handshake_iff_example = complete_handshake_iff wire hash hello 3

peers-close_example :
    (get (close 0 first_connection server).peers 3 ≡ some 1)
    ↔ ((get server.peers 3 ≡ some 1) × (◌≢◌ {A = ℕ} 1 0))
peers-close_example =
    peers-close server 0 first_connection 3 1 (run-IsValid wire hash twice) first_open

send_lem_example : IsSending 3 (9 ∷ []) server (send 3 (9 ∷ []) server)
send_lem_example = send_lem server 3 (9 ∷ []) (run-IsValid wire hash twice)

-- the server that sender 3 is connected to, and a registry that has heard of it
abbrev world : State UdsIpcServer
world = record { registry = two_senders; ipc = server; dispatched_sessions = []; log = [] }

abbrev detections : List Detection
detections =
    record {
      now = 15;
      random_bytes = 1 ∷ 2 ∷ 3 ∷ 4 ∷ 5 ∷ 6 ∷ 7 ∷ 8 ∷ [];
      size = ok (pos 2500);
      hash = ok (hex digest);
      path = file.path;
    }
    ∷ []
