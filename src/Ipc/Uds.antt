-- ===== src/Ipc/Uds.antt =====
-- src/file_monitor/ipc/uds.py: the server as a state that the
-- operating system, the peers and the callers of `send` act on, one step of the event loop at a time.
-- A connection is known by a number, which stands for its queue too: every connection has its own.
pub mod Live
pub mod Kept
pub mod Steps
pub mod Peers
pub mod Stopped
use file_monitor.Prelude.{
  ℕ, zero, suc, ◌+◌, ◌≡◌, Bool, true, false, not, Option, none, some, List, [], ◌∷◌, ◌++◌, ltb,
  null, length, map, if◌then◌else◌, Result, ok, err, Error, ◌>>=◌, ◌>>◌, raise_if, attribute_error,
  handshake_error, proto_hash_mismatch,
}
use file_monitor.Python.Text.{Text, Bytes}
use file_monitor.Python.Equality.{◌==◌, nat_eq, list_eq}
use file_monitor.Python.Dict.{Dict, get, put}
use file_monitor.Python.Dict
use file_monitor.Domain.Models.{SenderId}
use file_monitor.Ipc.Messages.{Message, SenderHello, sender_hello}
use file_monitor.Ipc.Codec.{Protobuf, decode, sender_hello_field_name}
use file_monitor.Ipc.Handshake.{verify_proto_hash}
use file_monitor.Services.Dispatcher.{Sending, sent, unknown_sender, queue_full}

abbrev pub send_queue_maxsize : ℕ
send_queue_maxsize = 64

abbrev pub incoming_queue_maxsize : ℕ
incoming_queue_maxsize = 256

-- The local variables of `_handle_peer`. `pending` is the frame that the task waits to put into the
-- incoming queue.
pub record Connection : Type 0 where
  pub sender_id : Option SenderId
  pub send_queue : List Bytes
  pub writer_running : Bool
  pub pending : Option Bytes

pub record UdsIpcServer : Type 0 where
  pub expected_proto_hash : Bytes
  pub accepted : ℕ
  pub connections : Dict ℕ Connection
  pub peers : Dict SenderId ℕ
  pub incoming : List (SenderId × Bytes)

abbrev pub init : Bytes → UdsIpcServer
init expected_proto_hash = record {
  expected_proto_hash = expected_proto_hash;
  accepted = 0;
  connections = [];
  peers = [];
  incoming = [];
}

abbrev as_hello : Message → Result SenderHello
as_hello (sender_hello m) = ok m
as_hello _ = err attribute_error

-- `_complete_handshake` up to the entry into the table of peers
unfoldable pub complete_handshake : Protobuf → Bytes → Bytes → Result SenderId
unfolding verify_proto_hash
complete_handshake protobuf expected_proto_hash raw = do
  (field_name, message) ← decode protobuf raw
  raise_if (not (field_name == sender_hello_field_name)) (handshake_error field_name)
  hello ← as_hello message
  verify_proto_hash hello.sender_id hello.proto_hash expected_proto_hash
  ok hello.sender_id

-- a connection is accepted, and its task starts
unfoldable pub accept : UdsIpcServer → UdsIpcServer
accept s = record s {
  accepted = suc s.accepted;
  connections =
      put s.connections s.accepted
        (record { sender_id = none; send_queue = []; writer_running = false; pending = none });
}

-- `if self._peers.get(sender_id) is send_queue: self._peers.pop(sender_id, None)`
abbrev pub forget : Option SenderId → ℕ → Dict SenderId ℕ → Dict SenderId ℕ
forget none c peers = peers
forget (some sender_id) c peers = elim (get peers sender_id) [
  | none ↦ peers
  | some queue ↦ if queue == c then Dict.remove peers sender_id else peers
]

-- the `finally` of `_handle_peer`
unfoldable pub close : ℕ → Connection → UdsIpcServer → UdsIpcServer
close c conn s = record s {
  connections = Dict.remove s.connections c;
  peers = forget conn.sender_id c s.peers;
}

abbrev close_at : ℕ → Option Connection → UdsIpcServer → UdsIpcServer
close_at c none s = s
close_at c (some conn) s = close c conn s

abbrev pub close_each : List ℕ → UdsIpcServer → UdsIpcServer
close_each [] s = s
close_each (c ∷ cs) s = close_each cs (close_at c (get s.connections c) s)

abbrev pub keys : Dict ℕ Connection → List ℕ
keys connections = map (λ entry. entry.0) connections

-- The `finally` of `serve` cancels the task of every connection, and waits for the ends of all.
unfoldable pub stop : UdsIpcServer → UdsIpcServer
stop s = close_each (keys s.connections) s

abbrev greet : ℕ → Connection → Bytes → Result SenderId → UdsIpcServer → UdsIpcServer
greet c conn raw (err e) s = close c conn s
greet c conn raw (ok sender_id) s = record s {
  connections =
      put s.connections c
        (record conn { sender_id = some sender_id; writer_running = true; pending = some raw });
  peers = put s.peers sender_id c;
}

abbrev read_frame :
    Protobuf → ℕ → Connection → Option SenderId → Bytes → UdsIpcServer → UdsIpcServer
read_frame protobuf c conn none raw s =
    greet c conn raw (complete_handshake protobuf s.expected_proto_hash raw) s
read_frame protobuf c conn (some sender_id) raw s = record s {
  connections = put s.connections c (record conn { pending = some raw });
}

-- The task of a connection has a frame: it ends at the end of the stream and where the handshake
-- fails, and otherwise comes to the `put` of the frame. A task that waits in `put` reads nothing.
abbrev take_frame : Protobuf → ℕ → Connection → Option Bytes → Bytes → UdsIpcServer → UdsIpcServer
take_frame protobuf c conn (some waiting) raw s = s
take_frame protobuf c conn none [] s = close c conn s
take_frame protobuf c conn none (b ∷ raw) s = read_frame protobuf c conn conn.sender_id (b ∷ raw) s

abbrev receive_on : Protobuf → ℕ → Option Connection → Bytes → UdsIpcServer → UdsIpcServer
receive_on protobuf c none raw s = s
receive_on protobuf c (some conn) raw s = take_frame protobuf c conn conn.pending raw s

unfoldable pub receive : Protobuf → ℕ → Bytes → UdsIpcServer → UdsIpcServer
receive protobuf c raw s = receive_on protobuf c (get s.connections c) raw s

-- `await self._incoming.put(...)` goes through where there is room.
abbrev put_pending : ℕ → Connection → Option SenderId → Option Bytes → UdsIpcServer → UdsIpcServer
put_pending c conn (some sender_id) (some raw) s =
    if ltb (length s.incoming) incoming_queue_maxsize
    then record s {
      connections = put s.connections c (record conn { pending = none });
      incoming = s.incoming ++ (sender_id, raw) ∷ [];
    }
    else s
put_pending c conn _ _ s = s

abbrev put_on : ℕ → Option Connection → UdsIpcServer → UdsIpcServer
put_on c none s = s
put_on c (some conn) s = put_pending c conn conn.sender_id conn.pending s

unfoldable pub put_incoming : ℕ → UdsIpcServer → UdsIpcServer
put_incoming c s = put_on c (get s.connections c) s

-- `_iter_incoming` takes the first frame.
unfoldable pub get_incoming : UdsIpcServer → UdsIpcServer
get_incoming s = elim s.incoming [ [] ↦ s | frame ∷ rest ↦ record s { incoming = rest } ]

-- A turn of `_write_loop`: the first payload of the queue is sent, or it fails with an OSError. The
-- reading side is shut down then, which is seen as an end of the stream that is received later.
abbrev write_first : Bool → ℕ → Connection → List Bytes → UdsIpcServer → UdsIpcServer
write_first fails c conn [] s = s
write_first false c conn (payload ∷ rest) s = record s {
  connections = put s.connections c (record conn { send_queue = rest });
}
write_first true c conn (payload ∷ rest) s = record s {
  connections = put s.connections c (record conn { send_queue = rest; writer_running = false });
  peers = forget conn.sender_id c s.peers;
}

abbrev write_on : Bool → ℕ → Option Connection → UdsIpcServer → UdsIpcServer
write_on fails c none s = s
write_on fails c (some conn) s =
    if conn.writer_running then write_first fails c conn conn.send_queue s else s

unfoldable pub write : Bool → ℕ → UdsIpcServer → UdsIpcServer
write fails c s = write_on fails c (get s.connections c) s

abbrev put_nowait : ℕ → Bytes → Option Connection → UdsIpcServer → Sending × UdsIpcServer
put_nowait c payload none s = (unknown_sender, s)
put_nowait c payload (some conn) s =
    if ltb (length conn.send_queue) send_queue_maxsize
    then (
      sent,
      record s {
        connections =
            put s.connections c (record conn { send_queue = conn.send_queue ++ payload ∷ [] });
      },
    )
    else (queue_full, s)

-- A queue that is in the table is that of a connection that is open (Live), so `put_nowait` finds it.
abbrev send_on : Bytes → Option ℕ → UdsIpcServer → Sending × UdsIpcServer
send_on payload none s = (unknown_sender, s)
send_on payload (some c) s = put_nowait c payload (get s.connections c) s

unfoldable pub send : SenderId → Bytes → UdsIpcServer → Sending × UdsIpcServer
send sender_id payload s = send_on payload (get s.peers sender_id) s
