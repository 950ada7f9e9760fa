-- ===== src/Ipc/Uds/Kept.antt =====
-- src/file_monitor/ipc/uds.py: each operation of the server keeps the table of peers right.
use file_monitor.Prelude.{
  ℕ, ◌≤◌, ◌≡◌, refl, sym, subst, Bool, true, false, Option, none, some, List, [], ◌∷◌, arith,
  length, length-append, ltb, ltb→lt, if◌then◌else◌, Bool-cases, inl, inr, Result, ok, err,
}
use file_monitor.Python.Text.{Bytes}
use file_monitor.Python.Equality.{nat_eq}
use file_monitor.Python.Dict.{get, get-put}
use file_monitor.Domain.Models.{SenderId}
use file_monitor.Ipc.Codec.{Protobuf}
use file_monitor.Ipc.Uds.{
  Connection, UdsIpcServer, init, accept, greet, read_frame, take_frame, receive_on, put_pending,
  put_on, write_on, send_on, get_incoming, write_first, put_nowait, send, complete_handshake,
  close_at, close_each,
}
use file_monitor.Ipc.Uds.Live.{
  IsShort, IsValid, set-IsValid, close-IsValid, fail-IsValid, greet-IsValid,
}

pub init-IsValid : (hash : Bytes) → IsValid (init hash)
unfolding get
init-IsValid hash = record {
  unused = λ c h. refl;
  live = λ id c h. absurd (cc);
  short = λ c. tt;
  room = omega arith;
}

pub accept-IsValid : (s : UdsIpcServer) → IsValid s → IsValid (accept s)
unfolding accept
accept-IsValid s v =
    let conn : Connection = record {
      sender_id = none;
      send_queue = [];
      writer_running = false;
      pending = none;
    } in
    let free = v.unused s.accepted (omega arith) in
    record {
      unused = λ c h.
          let old = v.unused c (omega arith) in
          ground (arith, get-put s.connections s.accepted c conn);
      live = λ id c h.
          let old = v.live id c h in ground (arith, get-put s.connections s.accepted c conn);
      short = λ c. let old = v.short c in ground (arith, get-put s.connections s.accepted c conn);
      room = v.room;
    }

module _ (protobuf : Protobuf) (s : UdsIpcServer) (v : IsValid s) (c : ℕ) where
  short_at : {conn : Connection} → get s.connections c ≡ some conn → length conn.send_queue ≤ 64
  short_at here = subst IsShort here (v.short c)

  greet_lem :
      (conn : Connection) (raw : Bytes) (r : Result SenderId)
      → get s.connections c ≡ some conn
      → conn.sender_id ≡ none
      → IsValid (greet c conn raw r s)
  greet_lem conn raw (err e) here unknown = close-IsValid s v c here
  greet_lem conn raw (ok id) here unknown =
      greet-IsValid s v c here id _ unknown refl refl (short_at here)

  read_frame-IsValid :
      (conn : Connection) (o : Option SenderId) (raw : Bytes)
      → get s.connections c ≡ some conn
      → conn.sender_id ≡ o
      → IsValid (read_frame protobuf c conn o raw s)
  read_frame-IsValid conn none raw here unknown =
      greet_lem conn raw (complete_handshake protobuf s.expected_proto_hash raw) here unknown
  read_frame-IsValid conn (some id) raw here known =
      set-IsValid s v c here _ s.incoming refl refl (short_at here) v.room

  take_frame-IsValid :
      (conn : Connection) (waiting : Option Bytes) (raw : Bytes)
      → get s.connections c ≡ some conn
      → IsValid (take_frame protobuf c conn waiting raw s)
  take_frame-IsValid conn (some frame) raw here = v
  take_frame-IsValid conn none [] here = close-IsValid s v c here
  take_frame-IsValid conn none (b ∷ raw) here =
      read_frame-IsValid conn conn.sender_id (b ∷ raw) here refl

  pub receive_on-IsValid :
      (o : Option Connection) (raw : Bytes)
      → get s.connections c ≡ o
      → IsValid (receive_on protobuf c o raw s)
  receive_on-IsValid none raw here = v
  receive_on-IsValid (some conn) raw here = take_frame-IsValid conn conn.pending raw here

  put_pending-IsValid :
      (conn : Connection) (id : Option SenderId) (frame : Option Bytes)
      → get s.connections c ≡ some conn
      → IsValid (put_pending c conn id frame s)
  put_pending-IsValid conn none frame here = v
  put_pending-IsValid conn (some id) none here = v
  put_pending-IsValid conn (some id) (some raw) here =
      elim (Bool-cases (ltb (length s.incoming) 256)) [
        | inl space ↦ rw space (
            set-IsValid s v c here _ _ refl refl (short_at here)
              (omega (arith, length-append s.incoming ((id, raw) ∷ []), ltb→lt _ _ space)))
        | inr full ↦ rw full v
      ]

  pub put_on-IsValid : (o : Option Connection) → get s.connections c ≡ o → IsValid (put_on c o s)
  put_on-IsValid none here = v
  put_on-IsValid (some conn) here = put_pending-IsValid conn conn.sender_id conn.pending here

  write_first-IsValid :
      (fails : Bool) (conn : Connection) (queue : List Bytes)
      → get s.connections c ≡ some conn
      → length queue ≤ 64
      → IsValid (write_first fails c conn queue s)
  write_first-IsValid fails conn [] here short = v
  write_first-IsValid true conn (payload ∷ rest) here short =
      fail-IsValid s v c here _ (omega arith)
  write_first-IsValid false conn (payload ∷ rest) here short =
      set-IsValid s v c here _ s.incoming refl refl (omega arith) v.room

  pub write_on-IsValid :
      (fails : Bool) (o : Option Connection)
      → get s.connections c ≡ o
      → IsValid (write_on fails c o s)
  write_on-IsValid fails none here = v
  write_on-IsValid fails (some conn) here =
      let written = write_first-IsValid fails conn conn.send_queue here (short_at here) in
      elim (Bool-cases conn.writer_running) [
        | inl on ↦
            subst (λ b. IsValid (if b then write_first fails c conn conn.send_queue s else s))
              (sym on) written
        | inr off ↦
            subst (λ b. IsValid (if b then write_first fails c conn conn.send_queue s else s))
              (sym off) v
      ]

  put_nowait-IsValid :
      (payload : Bytes) (o : Option Connection)
      → get s.connections c ≡ o
      → IsValid (put_nowait c payload o s).1
  put_nowait-IsValid payload none here = v
  put_nowait-IsValid payload (some conn) here =
      elim (Bool-cases (ltb (length conn.send_queue) 64)) [
        | inl space ↦ rw space (
            set-IsValid s v c here _ s.incoming refl refl
              (omega (arith, length-append conn.send_queue (payload ∷ []), ltb→lt _ _ space))
              v.room)
        | inr full ↦ rw full v
      ]

pub get_incoming-IsValid : (s : UdsIpcServer) → IsValid s → IsValid (get_incoming s)
unfolding get_incoming
get_incoming-IsValid s v = taken s.incoming v.room
  where
    taken :
        (frames : List (SenderId × Bytes))
        → length frames ≤ 256
        → IsValid (elim frames [ [] ↦ s | frame ∷ rest ↦ record s { incoming = rest } ])
    taken [] room = v
    taken (frame ∷ rest) room = record {
      unused = v.unused;
      live = v.live;
      short = v.short;
      room = omega arith;
    }

pub send_on-IsValid :
    (protobuf : Protobuf) (s : UdsIpcServer) (payload : Bytes) (o : Option ℕ)
    → IsValid s
    → IsValid (send_on payload o s).1
send_on-IsValid protobuf s payload none v = v
send_on-IsValid protobuf s payload (some c) v =
    put_nowait-IsValid protobuf s v c payload (get s.connections c) refl

pub send-keeps :
    (protobuf : Protobuf) (s : UdsIpcServer) (id : SenderId) (payload : Bytes)
    → IsValid s
    → IsValid (send id payload s).1
unfolding send
send-keeps protobuf s id payload v = send_on-IsValid protobuf s payload (get s.peers id) v

close_at-IsValid :
    (c : ℕ) (s : UdsIpcServer) (o : Option Connection)
    → IsValid s
    → get s.connections c ≡ o
    → IsValid (close_at c o s)
close_at-IsValid c s none v here = v
close_at-IsValid c s (some conn) v here = close-IsValid s v c here

pub close_each-IsValid : (cs : List ℕ) (s : UdsIpcServer) → IsValid s → IsValid (close_each cs s)
close_each-IsValid [] s v = v
close_each-IsValid (c ∷ cs) s v =
    close_each-IsValid cs (close_at c (get s.connections c) s)
      (close_at-IsValid c s (get s.connections c) v refl)
