-- ===== src/Ipc/Uds/Peers.antt =====
-- src/file_monitor/ipc/uds.py: who enters the table of peers, who leaves it, and what `send` does.
use file_monitor.Prelude.{
  ℕ, ◌≤◌, ◌<◌, ◌≡◌, ◌≢◌, ◌↔◌, refl, ap, ◌∙◌, true, Option, none, some, [], ◌∷◌, ◌++◌, arith, length,
  ltb, ltb→lt, Bool-cases, Result-cases, Error, inl, inr, ok, err,
}
use file_monitor.Python.Text.{Text, Bytes}
use file_monitor.Python.Equality.{nat_eq, list_eq, list_beq_iff, eq_refl}
use file_monitor.Python.Dict.{Dict, get, put, get-remove}
use file_monitor.Domain.Models.{SenderId}
use file_monitor.Ipc.Messages.{
  Message, SenderHello, sender_hello, heartbeat, sender_progress, session_complete,
  local_congestion, assign_session, update_rate, abort, foreign,
}
use file_monitor.Ipc.Codec.{Protobuf, decode, sender_hello_field_name}
use file_monitor.Services.Dispatcher.{Sending, sent, unknown_sender, queue_full}
use file_monitor.Ipc.Uds.{
  Connection, UdsIpcServer, close, put_nowait, send, send_on, forget, complete_handshake,
}
use file_monitor.Ipc.Handshake.{verify_proto_hash}
use file_monitor.Ipc.Uds.Live.{IsLive, IsValid, forget-other}

handshake-inspect :
    (protobuf : Protobuf) (expected raw : Bytes) (sender_id : SenderId) (field_name : Text)
    (message : Message)
    → decode protobuf raw ≡ ok (field_name, message)
    → complete_handshake protobuf expected raw ≡ ok sender_id
    → (field_name ≡ sender_hello_field_name)
      × (m : SenderHello) × (message ≡ sender_hello m)
      × (m.proto_hash ≡ expected)
      × (m.sender_id ≡ sender_id)
unfolding complete_handshake verify_proto_hash
handshake-inspect protobuf expected raw sender_id field_name (sender_hello m) decoded e =
    let names = list_beq_iff field_name sender_hello_field_name in
    let hashes = list_beq_iff m.proto_hash expected in
    (ground (arith, names), m, refl, ground (arith, hashes), ground arith)
handshake-inspect protobuf expected raw sender_id field_name (heartbeat m) decoded e =
    absurd (ground arith)
handshake-inspect protobuf expected raw sender_id field_name (sender_progress m) decoded e =
    absurd (ground arith)
handshake-inspect protobuf expected raw sender_id field_name (session_complete m) decoded e =
    absurd (ground arith)
handshake-inspect protobuf expected raw sender_id field_name (local_congestion m) decoded e =
    absurd (ground arith)
handshake-inspect protobuf expected raw sender_id field_name (assign_session m) decoded e =
    absurd (ground arith)
handshake-inspect protobuf expected raw sender_id field_name (update_rate m) decoded e =
    absurd (ground arith)
handshake-inspect protobuf expected raw sender_id field_name (abort m) decoded e =
    absurd (ground arith)
handshake-inspect protobuf expected raw sender_id field_name (foreign m) decoded e =
    absurd (ground arith)

handshake-decodes :
    (protobuf : Protobuf) (expected raw : Bytes) (sender_id : SenderId) (e : Error)
    → decode protobuf raw ≡ err e
    → complete_handshake protobuf expected raw ≢ ok sender_id
unfolding complete_handshake
handshake-decodes protobuf expected raw sender_id e failed done = ground arith

-- A handshake succeeds exactly if the frame is a sender_hello that carries the expected hash of the
-- contract; the sender is then the one that the message names.
pub complete_handshake_iff :
    (protobuf : Protobuf) (expected raw : Bytes) (sender_id : SenderId)
    → (complete_handshake protobuf expected raw ≡ ok sender_id) ↔ (
        (m : SenderHello) × (decode protobuf raw ≡ ok (sender_hello_field_name, sender_hello m))
        × (m.proto_hash ≡ expected)
        × (m.sender_id ≡ sender_id))
unfolding complete_handshake verify_proto_hash
complete_handshake_iff protobuf expected raw sender_id = (
  λ done. elim (Result-cases (decode protobuf raw)) [
    | inl ((field_name, message), decoded) ↦
        let (named, m, is_hello, same, is_id) =
          handshake-inspect protobuf expected raw sender_id field_name message decoded done in
        (m, decoded ∙ ap ok (cc (named, is_hello)), same, is_id)
    | inr (e, failed) ↦ absurd (handshake-decodes protobuf expected raw sender_id e failed done)
  ],
  λ (m, decoded, same, is_id).
      let names = eq_refl sender_hello_field_name in
      let hashes = (list_beq_iff m.proto_hash expected).1 same in
      rw decoded (ground (arith, names, hashes, is_id)),
)

forget-keeps :
    (o : Option SenderId) (c : ℕ) (peers : Dict SenderId ℕ) (sender_id : SenderId) (j : ℕ)
    → get peers sender_id ≡ some j
    → j ≢ c
    → get (forget o c peers) sender_id ≡ some j
forget-keeps none c peers sender_id j e ne = e
forget-keeps (some s) c peers sender_id j e ne = ground (arith, get-remove peers s sender_id)

-- When a connection ends, the table keeps exactly the entries that lead to other connections: a
-- sender that has connected again is not cut off by the end of its old connection.
pub peers-close :
    (s : UdsIpcServer) (c : ℕ) (conn : Connection) (sender_id : SenderId) (j : ℕ)
    → IsValid s
    → get s.connections c ≡ some conn
    → (get (close c conn s).peers sender_id ≡ some j) ↔ ((get s.peers sender_id ≡ some j) × (j ≢ c))
unfolding close
peers-close s c conn sender_id j v here = (
  forget-other s.peers s.connections c conn sender_id j here v.live,
  λ (e, ne). forget-keeps conn.sender_id c s.peers sender_id j e ne,
)

-- what `send` may do
abbrev pub IsSending : SenderId → Bytes → UdsIpcServer → Sending × UdsIpcServer → Type 0
IsSending sender_id payload s (unknown_sender, s') = (get s.peers sender_id ≡ none) × (s' ≡ s)
IsSending sender_id payload s (queue_full, s') =
    (c : ℕ) × (conn : Connection) × (get s.peers sender_id ≡ some c)
    × (get s.connections c ≡ some conn)
    × (64 ≤ length conn.send_queue)
    × (s' ≡ s)
IsSending sender_id payload s (sent, s') =
    (c : ℕ) × (conn : Connection) × (get s.peers sender_id ≡ some c)
    × (get s.connections c ≡ some conn)
    × (conn.sender_id ≡ some sender_id)
    × (conn.writer_running ≡ true)
    × (length conn.send_queue < 64)
    × (s' ≡ record s {
      connections =
          put s.connections c (record conn { send_queue = conn.send_queue ++ payload ∷ [] });
    })

module _ (s : UdsIpcServer) (sender_id : SenderId) (payload : Bytes) (v : IsValid s) where
  queued :
      (c : ℕ) (o : Option Connection)
      → get s.peers sender_id ≡ some c
      → get s.connections c ≡ o
      → IsLive sender_id o
      → IsSending sender_id payload s (put_nowait c payload o s)
  queued c none known here live = absurd live
  queued c (some conn) known here live = elim (Bool-cases (ltb (length conn.send_queue) 64)) [
    | inl space ↦
        rw space
          (c, conn, known, here, live.0, live.1, ltb→lt (length conn.send_queue) 64 space, refl)
    | inr full ↦ rw full (c, conn, known, here, ground arith, refl)
  ]

  found :
      (o : Option ℕ)
      → get s.peers sender_id ≡ o
      → IsSending sender_id payload s (send_on payload o s)
  found none unknown = (unknown, refl)
  found (some c) known = queued c (get s.connections c) known refl (v.live sender_id c known)

-- In a server that is valid, `send` raises UnknownSenderError exactly where the sender is not in the
-- table, and SendQueueFullError where 64 payloads wait for it, and changes nothing then; otherwise the
-- payload is put at the end of the queue of an open connection of that sender whose writer runs.
pub send_lem :
    (s : UdsIpcServer) (sender_id : SenderId) (payload : Bytes)
    → IsValid s
    → IsSending sender_id payload s (send sender_id payload s)
unfolding send
send_lem s sender_id payload v = found s sender_id payload v (get s.peers sender_id) refl
