-- ===== src/Services/Dispatcher/Keeps.antt =====
-- src/file_monitor/services/dispatcher.py: what holds of the registry and the server before a dispatch
-- holds after it, if each step that a dispatch takes keeps it.
use file_monitor.Prelude.{
  ℕ, zero, suc, Bool, true, false, Option, none, some, List, [], ◌∷◌, ℤ, Result, ok, err, null,
  Bool-cases, Result-cases, inl, inr,
}
use file_monitor.Python.Text.{Text, Bytes}
use file_monitor.Python.Paths.{FilePath}
use file_monitor.Domain.Models.{SenderId, SourceFile, ShardAssignment}
use file_monitor.Domain.Planning.{derive_shard_assignments, calculate_block_count}
use file_monitor.Services.Registry
use file_monitor.Services.Registry.{SenderRegistry, active_senders}
use file_monitor.Services.Planner.{SessionId, generate_session_id}
use file_monitor.Services.Dispatcher.{
  Sending, sent, unknown_sender, queue_full, Environment, Settings, State, Outcome, interleave,
  pause, deliver_attempts, deliver, make_payload, send_shards, send_to_senders, conclude,
  log_partial_failure, record_session, dispatch, dispatch_hashed,
}

module _ {S : Type 0} (env : Environment S) (P : SenderRegistry × S → Type 0) where
  -- the steps that a dispatch is made of
  pub record KeepsEach : Type 0 where
    pub sending :
        (sender_id : SenderId) (payload : Bytes) (r : SenderRegistry) (ipc : S)
        → P (r, ipc)
        → P (r, (env.send sender_id payload ipc).1)
    pub removing :
        (sender_id : SenderId) (r : SenderRegistry) (ipc : S)
        → P (r, ipc)
        → P (Registry.remove sender_id r, ipc)
    pub asking :
        (now : ℕ) (r : SenderRegistry) (ipc : S) → P (r, ipc) → P ((active_senders now r).1, ipc)
    pub hashing : (x : SenderRegistry × S) → P x → P (env.during_hash x)
    pub sleeping : (x : SenderRegistry × S) → P x → P (env.during_sleep x)

  abbrev pub Holds : State S → Type 0
  Holds s = P (s.registry, s.ipc)

  module _ (keeps : KeepsEach) where
    pause-Holds : (n : ℕ) (s : State S) → Holds s → Holds (pause env n s)
    unfolding pause
    pause-Holds zero s h = h
    pause-Holds (suc n) s h = keeps.sleeping (s.registry, s.ipc) h

    -- the state behind a call of `send`
    abbrev called : SenderId → Bytes → State S → State S
    called sender_id payload s = record s { ipc = (env.send sender_id payload s.ipc).1 }

    attempts-Holds :
        (n : ℕ) (sender_id : SenderId) (payload : Bytes) (s : State S)
        → Holds s
        → Holds (deliver_attempts env n sender_id payload s).1
    unfolding deliver_attempts
    attempts-Holds zero sender_id payload s h = h
    attempts-Holds (suc n) sender_id payload s h =
        answered (env.send sender_id payload s.ipc).0
          (keeps.sending sender_id payload s.registry s.ipc h)
          (λ k.
            attempts-Holds n sender_id payload (pause env n (called sender_id payload s))
              (pause-Holds n (called sender_id payload s) k))
      where
        answered :
            (x : Sending)
            → Holds (called sender_id payload s)
            → (Holds (called sender_id payload s)
                → Holds
                    (deliver_attempts env n sender_id payload
                      (pause env n (called sender_id payload s))).1)
            → (let r : Bool × State S = elim x [
              | sent ↦ (true, (called sender_id payload s))
              | unknown_sender ↦ (
                false,
                record (called sender_id payload s) {
                  registry = Registry.remove sender_id (called sender_id payload s).registry;
                },
              )
              | queue_full ↦
                  deliver_attempts env n sender_id payload
                    (pause env n (called sender_id payload s))
            ] in
                Holds r.1)
        answered sent k again = k
        answered unknown_sender k again =
            keeps.removing sender_id (called sender_id payload s).registry
              (called sender_id payload s).ipc k
        answered queue_full k again = again k

    send_shards-Holds :
        (settings : Settings) (id : SessionId) (file : SourceFile) (as' : List ShardAssignment)
        → (s : State S) → Holds s
        → Holds (send_shards env settings id file as' s).1
    unfolding send_shards deliver
    send_shards-Holds settings id file [] s h = h
    send_shards-Holds settings id file (a ∷ rest) s h =
        elim (Result-cases (make_payload settings id file a)) [
          | inl (payload, made) ↦
              rw (made, send_shards)
                (send_shards-Holds settings id file rest (deliver env a payload s).1
                  (attempts-Holds 2 a.sender_id payload s h))
          | inr (x, failed) ↦ rw (failed, send_shards) h
        ]

    conclude-Holds :
        (settings : Settings) (id : SessionId) (r : Result Outcome) (s : State S)
        → Holds s
        → Holds (conclude env settings id (r, s)).1
    unfolding log_partial_failure
    conclude-Holds settings id (err e) s h = h
    conclude-Holds settings id (ok (succeeded, [])) s h = h
    conclude-Holds settings id (ok (succeeded, a ∷ lost)) s h = h

    record_session-Holds :
        (settings : Settings) (id : SessionId) (r : Result (Option (List SenderId))) (s : State S)
        → Holds s
        → Holds (record_session env settings id (r, s)).1
    record_session-Holds settings id (err e) s h = h
    record_session-Holds settings id (ok none) s h = h
    record_session-Holds settings id (ok (some succeeded)) s h = h

    send_to_senders-Holds :
        (settings : Settings) (id : SessionId) (file : SourceFile) (total : ℤ)
        → (active : List SenderId) (s : State S) → Holds s
        → Holds (send_to_senders env settings id file total active s).1
    unfolding send_to_senders
    send_to_senders-Holds settings id file total active s h =
        elim (Result-cases (derive_shard_assignments total active settings.base_port)) [
          | inl (as', derived) ↦
              let r = send_shards env settings id file as' s in
              rw (derived, send_to_senders)
                (conclude-Holds settings id r.0 r.1 (send_shards-Holds settings id file as' s h))
          | inr (x, failed) ↦ rw (failed, send_to_senders) h
        ]

    dispatch_hashed-Holds :
        (settings : Settings) (now : ℕ) (random_bytes : Bytes) (file : SourceFile) (s : State S)
        → Holds s
        → Holds (dispatch_hashed env settings now random_bytes file s).1
    unfolding dispatch_hashed
    dispatch_hashed-Holds settings now random_bytes file s h =
        let active = (active_senders now s.registry).0 in
        let t : State S = record s { registry = (active_senders now s.registry).1 } in
        let asked : Holds t = keeps.asking now s.registry s.ipc h in
        let id = generate_session_id random_bytes in
        elim (Bool-cases (null active)) [
          | inl none_active ↦ rw (dispatch_hashed, none_active) asked
          | inr some_active ↦
              elim (Result-cases (calculate_block_count file.size_bytes settings.fec_params)) [
                | inl (total, counted) ↦
                    let r = send_to_senders env settings id file total active t in
                    rw (dispatch_hashed, some_active, counted)
                      (record_session-Holds settings id r.0 r.1
                        (send_to_senders-Holds settings id file total active t asked))
                | inr (x, failed) ↦ rw (dispatch_hashed, some_active, failed) asked
              ]
        ]

    pub dispatch-Holds :
        (settings : Settings) (now : ℕ) (random_bytes : Bytes) (size : Result ℤ)
        → (hash : Result Text) (path : FilePath) (s : State S) → Holds s
        → Holds (dispatch env settings now random_bytes size hash path s).1
    unfolding dispatch
    dispatch-Holds settings now random_bytes (err e) hash path s h = h
    dispatch-Holds settings now random_bytes (ok size) (err e) path s h =
        keeps.hashing (s.registry, s.ipc) h
    dispatch-Holds settings now random_bytes (ok size) (ok file_hash) path s h =
        dispatch_hashed-Holds settings now random_bytes _ (interleave env env.during_hash s)
          (keeps.hashing (s.registry, s.ipc) h)
