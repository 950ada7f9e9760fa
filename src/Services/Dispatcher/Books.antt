-- ===== src/Services/Dispatcher/Books.antt =====
-- src/file_monitor/services/dispatcher.py: sending leaves the record of sessions and the log alone.
use file_monitor.Prelude.{
  ℕ, zero, suc, ◌≡◌, refl, List, [], ◌∷◌, arith, ◌∙◌, inl, inr, Result-cases,
}
use file_monitor.Python.Text.{Bytes}
use file_monitor.Domain.Models.{SenderId, SourceFile, ShardAssignment}
use file_monitor.Services.Planner.{SessionId}
use file_monitor.Services.Dispatcher.{
  Environment, Settings, State, pause, deliver_attempts, deliver, make_payload, send_shards,
}

module _ {S : Type 0} where
  pub record SameBooks (s t : State S) : Type 0 where
    pub sessions : t.dispatched_sessions ≡ s.dispatched_sessions
    pub log : t.log ≡ s.log

  SameBooks-trans : {s t u : State S} → SameBooks s t → SameBooks t u → SameBooks s u
  SameBooks-trans a b = record { sessions = b.sessions ∙ a.sessions; log = b.log ∙ a.log }

  module _ (env : Environment S) where
    pause-SameBooks : (n : ℕ) (s : State S) → SameBooks s (pause env n s)
    unfolding pause
    pause-SameBooks zero s = record { sessions = refl; log = refl }
    pause-SameBooks (suc n) s = record { sessions = refl; log = refl }

    attempts-SameBooks :
        (n : ℕ) (sender_id : SenderId) (payload : Bytes) (s : State S)
        → SameBooks s (deliver_attempts env n sender_id payload s).1
    unfolding deliver_attempts
    attempts-SameBooks zero sender_id payload s = record { sessions = refl; log = refl }
    attempts-SameBooks (suc n) sender_id payload s =
        let s' : State S = record s { ipc = (env.send sender_id payload s.ipc).1 } in
        ground
          (arith, pause-SameBooks n s', attempts-SameBooks n sender_id payload (pause env n s'))

    pub send_shards-SameBooks :
        (settings : Settings) (session_id : SessionId) (file : SourceFile)
        → (as' : List ShardAssignment) (s : State S)
        → SameBooks s (send_shards env settings session_id file as' s).1
    unfolding send_shards deliver
    send_shards-SameBooks settings session_id file [] s = record { sessions = refl; log = refl }
    send_shards-SameBooks settings session_id file (a ∷ rest) s =
        elim (Result-cases (make_payload settings session_id file a)) [
          | inl (payload, made) ↦
              let t = (deliver env a payload s).1 in
              rw (made, send_shards)
                (SameBooks-trans (attempts-SameBooks 2 a.sender_id payload s)
                  (send_shards-SameBooks settings session_id file rest t))
          | inr (x, failed) ↦ rw (failed, send_shards) (record { sessions = refl; log = refl })
        ]
