-- ===== src/Main/Serving.antt =====
-- src/file_monitor/main.py: the dispatcher over the server of ipc/uds.py, path after path.
use file_monitor.Prelude.{List, [], ◌∷◌}
use file_monitor.Ipc.Codec.{Protobuf}
use file_monitor.Ipc.Uds.{UdsIpcServer, send}
use file_monitor.Ipc.Uds.Live
use file_monitor.Ipc.Uds.Steps.{Event, run}
use file_monitor.Services.Registry.{SenderRegistry}
use file_monitor.Services.Registry.Active
use file_monitor.Services.Registry.History.{Call, perform}
use file_monitor.Services.Dispatcher.{Environment}

pub perform_all : List Call → SenderRegistry → SenderRegistry
perform_all [] r = r
perform_all (c ∷ calls) r = perform_all calls (perform c r)

abbrev pub World : Type 0
World = SenderRegistry × UdsIpcServer

-- The server of ipc/uds.py. Whenever the dispatcher waits, other tasks make the calls of the registry
-- and the steps of the server that `calls` and `events` give for the state of the two.
abbrev pub serving :
    Protobuf → (World → List Call) → (World → List Event) → Environment UdsIpcServer
serving protobuf calls events = record {
  send = send;
  during_hash = λ (r, ipc). (perform_all (calls (r, ipc)) r, run protobuf (events (r, ipc)) ipc);
  during_sleep = λ (r, ipc). (perform_all (calls (r, ipc)) r, run protobuf (events (r, ipc)) ipc);
}

-- The registry holds each sender once, and the server is valid.
abbrev pub IsServing : World → Type 0
IsServing (r, ipc) = Active.IsValid r × Live.IsValid ipc
