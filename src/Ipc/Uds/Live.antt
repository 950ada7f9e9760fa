-- ===== src/Ipc/Uds/Live.antt =====
-- src/file_monitor/ipc/uds.py: the table of peers leads to open connections, and the queues are
-- bounded, whatever happens.
use file_monitor.Prelude.{
  ℕ, ◌≤◌, ◌≡◌, ◌≢◌, sym, ap, ◌∙◌, subst, true, Option, none, some, List, arith, length,
}
use file_monitor.Python.Text.{Bytes}
use file_monitor.Python.Equality.{nat_eq}
use file_monitor.Python.Dict.{Dict, get, put, get-put, get-remove}
use file_monitor.Python.Dict
use file_monitor.Domain.Models.{SenderId}
use file_monitor.Ipc.Uds.{Connection, UdsIpcServer, forget, close}

-- an open connection that said it is this sender, and whose writer runs
abbrev pub IsLive : SenderId → Option Connection → Type 0
IsLive sender_id none = ⊥
IsLive sender_id (some conn) = (conn.sender_id ≡ some sender_id) × (conn.writer_running ≡ true)

abbrev pub IsShort : Option Connection → Type 0
IsShort none = Unit
IsShort (some conn) = length conn.send_queue ≤ 64

pub record IsValid (s : UdsIpcServer) : Type 0 where
  pub unused : (c : ℕ) → s.accepted ≤ c → get s.connections c ≡ none
  pub live :
      (sender_id : SenderId) (c : ℕ)
      → get s.peers sender_id ≡ some c
      → IsLive sender_id (get s.connections c)
  pub short : (c : ℕ) → IsShort (get s.connections c)
  pub room : length s.incoming ≤ 256

module _ (d : Dict ℕ Connection) (c : ℕ) {conn : Connection} (here : get d c ≡ some conn) where
  pub unused-put : (conn' : Connection) (j : ℕ) → get d j ≡ none → get (put d c conn') j ≡ none
  unused-put conn' j e = ground (arith, get-put d c j conn')

  -- A connection that keeps its sender and its writer stays live.
  pub IsLive-put :
      (conn' : Connection) (sender_id : SenderId) (j : ℕ)
      → conn'.sender_id ≡ conn.sender_id
      → conn'.writer_running ≡ conn.writer_running
      → IsLive sender_id (get d j)
      → IsLive sender_id (get (put d c conn') j)
  IsLive-put conn' sender_id j same_id same_writer live = ground (arith, get-put d c j conn')

pub IsLive-put_other :
    (d : Dict ℕ Connection) (c : ℕ) (conn' : Connection) (sender_id : SenderId) (j : ℕ)
    → j ≢ c
    → IsLive sender_id (get d j)
    → IsLive sender_id (get (put d c conn') j)
IsLive-put_other d c conn' sender_id j ne live = ground (arith, get-put d c j conn')

pub IsShort-put :
    (d : Dict ℕ Connection) (c : ℕ) (conn' : Connection) (j : ℕ)
    → length conn'.send_queue ≤ 64
    → IsShort (get d j)
    → IsShort (get (put d c conn') j)
IsShort-put d c conn' j short rest = ground (arith, get-put d c j conn')

forget-kept :
    (o : Option SenderId) (c : ℕ) (peers : Dict SenderId ℕ) (sender_id : SenderId) (j : ℕ)
    → get (forget o c peers) sender_id ≡ some j
    → get peers sender_id ≡ some j
forget-kept none c peers sender_id j e = e
forget-kept (some s) c peers sender_id j e = ground (arith, get-remove peers s sender_id)

forget-gone :
    (c : ℕ) (peers : Dict SenderId ℕ) (sender_id : SenderId)
    → get (forget (some sender_id) c peers) sender_id ≢ some c
forget-gone c peers sender_id e = ground (arith, get-remove peers sender_id sender_id)

-- Once a connection is forgotten, the table leads elsewhere, where it led before.
pub forget-other :
    (peers : Dict SenderId ℕ) (d : Dict ℕ Connection) (c : ℕ) (conn : Connection)
    → (sender_id : SenderId) (j : ℕ) → get d c ≡ some conn
    → ((sender_id' : SenderId) (i : ℕ)
        → get peers sender_id' ≡ some i
        → IsLive sender_id' (get d i))
    → get (forget conn.sender_id c peers) sender_id ≡ some j
    → (get peers sender_id ≡ some j) × (j ≢ c)
forget-other peers d c conn sender_id j here live e =
    let kept = forget-kept conn.sender_id c peers sender_id j e in
    (
      kept,
      λ same.
          let at_c : get peers sender_id ≡ some c = kept ∙ ap some same in
          let it_is : conn.sender_id ≡ some sender_id =
            (subst (IsLive sender_id) here (live sender_id c at_c)).0 in
          forget-gone c peers sender_id
            (ap (λ o. get (forget o c peers) sender_id) (sym it_is) ∙ e ∙ ap some same),
    )

unused-remove : (d : Dict ℕ Connection) (c j : ℕ) → get d j ≡ none → get (Dict.remove d c) j ≡ none
unused-remove d c j e = ground (arith, get-remove d c j)

IsLive-remove :
    (d : Dict ℕ Connection) (c : ℕ) (sender_id : SenderId) (j : ℕ)
    → j ≢ c
    → IsLive sender_id (get d j)
    → IsLive sender_id (get (Dict.remove d c) j)
IsLive-remove d c sender_id j ne live = ground (arith, get-remove d c j)

IsShort-remove :
    (d : Dict ℕ Connection) (c j : ℕ) → IsShort (get d j) → IsShort (get (Dict.remove d c) j)
IsShort-remove d c j short = ground (arith, get-remove d c j)

module _ (s : UdsIpcServer) (v : IsValid s) (c : ℕ) {conn : Connection}
    (here : get s.connections c ≡ some conn) where
  -- A connection may change its queue and its pending frame, if the queue stays short.
  pub set-IsValid :
      (conn' : Connection) (incoming : List (SenderId × Bytes))
      → conn'.sender_id ≡ conn.sender_id
      → conn'.writer_running ≡ conn.writer_running
      → length conn'.send_queue ≤ 64
      → length incoming ≤ 256
      → IsValid (record s { connections = put s.connections c conn'; incoming = incoming })
  set-IsValid conn' incoming same_id same_writer short room = record {
    unused = λ j h. unused-put s.connections c here conn' j (v.unused j h);
    live = λ id j h. IsLive-put s.connections c here conn' id j same_id same_writer (v.live id j h);
    short = λ j. IsShort-put s.connections c conn' j short (v.short j);
    room = room;
  }

  pub close-IsValid : IsValid (close c conn s)
  unfolding close
  close-IsValid = record {
    unused = λ j h. unused-remove s.connections c j (v.unused j h);
    live = λ id j h.
        let (kept, ne) = forget-other s.peers s.connections c conn id j here v.live h in
        IsLive-remove s.connections c id j ne (v.live id j kept);
    short = λ j. IsShort-remove s.connections c j (v.short j);
    room = v.room;
  }

  -- The writer of a connection fails.
  pub fail-IsValid :
      (conn' : Connection)
      → length conn'.send_queue ≤ 64
      → IsValid (record s {
        connections = put s.connections c conn';
        peers = forget conn.sender_id c s.peers;
      })
  fail-IsValid conn' short = record {
    unused = λ j h. unused-put s.connections c here conn' j (v.unused j h);
    live = λ id j h.
        let (kept, ne) = forget-other s.peers s.connections c conn id j here v.live h in
        IsLive-put_other s.connections c conn' id j ne (v.live id j kept);
    short = λ j. IsShort-put s.connections c conn' j short (v.short j);
    room = v.room;
  }

  -- A connection that had not said who it is enters the table.
  pub greet-IsValid :
      (sender_id : SenderId) (conn' : Connection)
      → conn.sender_id ≡ none
      → conn'.sender_id ≡ some sender_id
      → conn'.writer_running ≡ true
      → length conn'.send_queue ≤ 64
      → IsValid
          (record s { connections = put s.connections c conn'; peers = put s.peers sender_id c })
  greet-IsValid sender_id conn' unknown is_id is_running short = record {
    unused = λ j h. unused-put s.connections c here conn' j (v.unused j h);
    live = λ id j h. greeted id j h (v.live id j);
    short = λ j. IsShort-put s.connections c conn' j short (v.short j);
    room = v.room;
  }
    where
      greeted :
          (id : SenderId) (j : ℕ)
          → get (put s.peers sender_id c) id ≡ some j
          → (get s.peers id ≡ some j → IsLive id (get s.connections j))
          → IsLive id (get (put s.connections c conn') j)
      greeted id j h old =
          ground (arith, get-put s.peers sender_id id c, get-put s.connections c j conn')
