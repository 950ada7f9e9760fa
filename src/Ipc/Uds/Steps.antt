-- ===== src/Ipc/Uds/Steps.antt =====
-- src/file_monitor/ipc/uds.py: the steps of the server, in any order, keep the table of peers right.
use file_monitor.Prelude.{ℕ, refl, Bool, List, [], ◌∷◌}
use file_monitor.Python.Text.{Bytes}
use file_monitor.Python.Equality.{nat_eq}
use file_monitor.Python.Dict.{get}
use file_monitor.Domain.Models.{SenderId}
use file_monitor.Ipc.Codec.{Protobuf}
use file_monitor.Ipc.Uds.{
  UdsIpcServer, init, accept, receive, put_incoming, get_incoming, write, send, keys, stop,
}
use file_monitor.Ipc.Uds.Live.{IsValid}
use file_monitor.Ipc.Uds.Kept.{
  init-IsValid, accept-IsValid, receive_on-IsValid, put_on-IsValid, get_incoming-IsValid,
  write_on-IsValid, send_on-IsValid, close_each-IsValid,
}

-- what can happen next
pub data Event : Type 0 where
  accepts : Event
  receives : (c : ℕ) (raw : Bytes) → Event
  puts : (c : ℕ) → Event
  gets : Event
  writes : (fails : Bool) (c : ℕ) → Event
  sends : (sender_id : SenderId) (payload : Bytes) → Event
  stops : Event

pub step : Protobuf → Event → UdsIpcServer → UdsIpcServer
step protobuf accepts s = accept s
step protobuf (receives c raw) s = receive protobuf c raw s
step protobuf (puts c) s = put_incoming c s
step protobuf gets s = get_incoming s
step protobuf (writes fails c) s = write fails c s
step protobuf (sends sender_id payload) s = (send sender_id payload s).1
step protobuf stops s = stop s

unfoldable pub run : Protobuf → List Event → UdsIpcServer → UdsIpcServer
unfolding step
run protobuf [] s = s
run protobuf (e ∷ es) s = run protobuf es (step protobuf e s)

step-IsValid :
    (protobuf : Protobuf) (e : Event) (s : UdsIpcServer) → IsValid s → IsValid (step protobuf e s)
unfolding step receive put_incoming write send stop
step-IsValid protobuf accepts s v = accept-IsValid s v
step-IsValid protobuf (receives c raw) s v =
    receive_on-IsValid protobuf s v c (get s.connections c) raw refl
step-IsValid protobuf (puts c) s v = put_on-IsValid protobuf s v c (get s.connections c) refl
step-IsValid protobuf gets s v = get_incoming-IsValid s v
step-IsValid protobuf (writes fails c) s v =
    write_on-IsValid protobuf s v c fails (get s.connections c) refl
step-IsValid protobuf (sends id payload) s v = send_on-IsValid protobuf s payload (get s.peers id) v
step-IsValid protobuf stops s v = close_each-IsValid (keys s.connections) s v

pub run-keeps :
    (protobuf : Protobuf) (es : List Event) (s : UdsIpcServer)
    → IsValid s
    → IsValid (run protobuf es s)
unfolding run
run-keeps protobuf [] s v = v
run-keeps protobuf (e ∷ es) s v =
    run-keeps protobuf es (step protobuf e s) (step-IsValid protobuf e s v)

-- Whatever happens to a server after its start, in whatever order: each entry of the table of peers
-- leads to an open connection that gave that sender id and whose writer runs, no queue of a connection
-- holds more than 64 payloads, and no more than 256 frames wait to be handled.
pub run-IsValid :
    (protobuf : Protobuf) (hash : Bytes) (es : List Event) → IsValid (run protobuf es (init hash))
run-IsValid protobuf hash es = run-keeps protobuf es (init hash) (init-IsValid hash)
