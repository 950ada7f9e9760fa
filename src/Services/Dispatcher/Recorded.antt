-- ===== src/Services/Dispatcher/Recorded.antt =====
-- src/file_monitor/services/dispatcher.py: when `dispatch` records a session, and what it records.
use file_monitor.Prelude.{◌≡◌, ◌≢◌, Option, none, some, List, [], Result, ok, err}
use file_monitor.Python.Text.{Text}
use file_monitor.Python.Equality.{list_eq, nat_eq}
use file_monitor.Python.Dict
use file_monitor.Python.Dict.{get, put, get-put, get-remove}
use file_monitor.Domain.Models.{SenderId}
use file_monitor.Services.Planner.{SessionId}
use file_monitor.Services.Dispatcher.{Environment, Settings, State}

-- What a call of `dispatch` may do to the recorded sessions: it returns an id and records a list of
-- senders that is not empty under it, or it returns None or raises and records nothing.
abbrev pub Records :
    {S : Type 0} → SessionId → State S → Result (Option SessionId) × State S → Type 0
Records id s (ok (some id'), s') =
    (id' ≡ id)
    × (senders : List SenderId) × (senders ≢ [])
    × (s'.dispatched_sessions ≡ put s.dispatched_sessions id senders)
Records id s (ok none, s') = s'.dispatched_sessions ≡ s.dispatched_sessions
Records id s (err e, s') = s'.dispatched_sessions ≡ s.dispatched_sessions

module _ {S : Type 0} (env : Environment S) (settings : Settings) where
  -- sending records nothing, and returns no empty list
  abbrev Keeps : State S → Result (Option (List SenderId)) × State S → Type 0
  Keeps s r =
      (r.1.dispatched_sessions ≡ s.dispatched_sessions)
      × ((senders : List SenderId) → r.0 ≡ ok (some senders) → senders ≢ [])
