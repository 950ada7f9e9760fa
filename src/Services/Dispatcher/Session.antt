-- ===== src/Services/Dispatcher/Session.antt =====
-- src/file_monitor/services/dispatcher.py: what one call of `_send_to_senders` and of `dispatch` does.
use file_monitor.Prelude.{
  ℕ, ◌+◌, ◌≡◌, ◌≢◌, refl, sym, ap, ◌∙◌, subst, Option, none, some, List, [], ◌∷◌, ◌++◌, map, arith,
  if◌then◌else◌, null, length, ℤ, pos, Result, ok, err, Error, Result-cases, inl, inr,
}
use file_monitor.Python.Text.{Bytes}
use file_monitor.Python.Sets.{IsDistinct}
use file_monitor.Python.Equality.{list_eq, nat_eq}
use file_monitor.Domain.Models.{SenderId, SourceFile, ShardAssignment}
use file_monitor.Domain.Planning.{derive_shard_assignments}
use file_monitor.Domain.Planning.Shards.{
  shards, derive_shard_assignments_iff, derive_shard_assignments-eq-ok,
}
use file_monitor.Domain.Planning.Shards.Partition.{
  block_total, derive_shard_assignments-block_total,
}
use file_monitor.Services.Planner.{SessionId}
use file_monitor.Services.Dispatcher.{
  Environment, Settings, State, PartialFailure, Outcome, send_shards, send_to_senders, conclude,
  log_partial_failure,
}
use file_monitor.Services.Dispatcher.Delivery.{Attempt, traced, accepted}
use file_monitor.Services.Dispatcher.Books.{SameBooks, send_shards-SameBooks}
use file_monitor.Services.Dispatcher.Sharing.{
  Split, block_total-Split, ids, IsDistinct-Split, AreMessages, IsShared, share,
}

-- each shard goes to the sender at its place in the list
ids-shards :
    (total : ℕ) (base : ℤ) (m r : ℕ) (senders : List SenderId)
    → ids (shards total base m r senders) ≡ senders
ids-shards total base m r [] = refl
ids-shards total base m r (s ∷ rest) = ap (λ l. s ∷ l) (ids-shards total base m _ rest)

-- the report of the lost shards
abbrev pub failure : SessionId → List ShardAssignment → PartialFailure
failure session_id lost = record {
  session_id = session_id;
  failed_sender_ids = ids lost;
  lost_block_count = block_total lost;
  lost_shards =
      map (λ a. (a.sender_id, a.shard_residue, a.shard_modulus, length a.assigned_blocks)) lost;
}

-- what the report of a partial failure does to a state
reported :
    {S : Type 0} (session_id : SessionId) (lost : List ShardAssignment) (t : State S)
    → let t' = if null lost then t else log_partial_failure session_id lost t in
      (t'.ipc ≡ t.ipc)
      × (t'.dispatched_sessions ≡ t.dispatched_sessions)
      × (t'.log ≡ (if null lost then t.log else t.log ++ failure session_id lost ∷ []))
unfolding log_partial_failure
reported session_id [] t = (refl, refl, refl)
reported session_id (a ∷ lost) t = (refl, refl, refl)

null-ids : (as' : List ShardAssignment) → null (ids as') ≡ null as'
null-ids [] = refl
null-ids (a ∷ as') = refl

module _ {S : Type 0} (env : Environment S) (settings : Settings) (session_id : SessionId)
    (file : SourceFile) where
  -- How a call that did not raise, from `s` to `s'`, dealt with the shards of `total` blocks.
  pub record IsDispatched (total : ℕ) (active : List SenderId) (s s' : State (S × List Attempt))
      (result : Option (List SenderId)) : Type 0 where
    pub delivered : List ShardAssignment
    pub lost : List ShardAssignment
    pub split : Split (shards total settings.base_port (length active) 0 active) delivered lost
    pub is_result : result ≡ (if null delivered then none else some (ids delivered))
    pub entries : List (SenderId × Bytes)
    pub messages : AreMessages env settings session_id file delivered entries
    pub taken : accepted s'.ipc.1 ≡ accepted s.ipc.1 ++ entries
    pub once_each : IsDistinct (ids delivered)
    pub sessions : s'.dispatched_sessions ≡ s.dispatched_sessions
    pub report : s'.log ≡ (if null lost then s.log else s.log ++ failure session_id lost ∷ [])
    pub blocks : block_total delivered + block_total lost ≡ total

  abbrev loop :
      List ShardAssignment → State (S × List Attempt) → Result Outcome × State (S × List Attempt)
  loop as' s = send_shards (traced env) settings session_id file as' s

  send_to_senders-eq :
      (total : ℕ) (active : List SenderId) (s : State (S × List Attempt))
      {as' : List ShardAssignment}
      → derive_shard_assignments (pos total) active settings.base_port ≡ ok as'
      → send_to_senders (traced env) settings session_id file (pos total) active s
        ≡ conclude (traced env) settings session_id (loop as' s)
  unfolding send_to_senders
  send_to_senders-eq total active s e = rw (e, send_to_senders)

  send_to_senders-err :
      (total : ℕ) (active : List SenderId) (s : State (S × List Attempt)) {x : Error}
      → (result : Option (List SenderId))
      → derive_shard_assignments (pos total) active settings.base_port ≡ err x
      → (send_to_senders (traced env) settings session_id file (pos total) active s).0 ≢ ok result
  unfolding send_to_senders
  send_to_senders-err total active s result failed e = ground arith

  finish :
      (total : ℕ) (active : List SenderId) (s t : State (S × List Attempt))
      (as' : List ShardAssignment)
      → (r : Result Outcome) (result : Option (List SenderId))
      → derive_shard_assignments (pos total) active settings.base_port ≡ ok as'
      → SameBooks s t
      → ((o : Outcome) → r ≡ ok o → IsShared env settings session_id file as' s t o)
      → (conclude (traced env) settings session_id (r, t)).0 ≡ ok result
      → IsDispatched total active s (conclude (traced env) settings session_id (r, t)).1 result
  finish total active s t as' (err x) result derived books shared concluded = absurd (cc)
  finish total active s t as' (ok (succeeded, lost)) result derived books shared concluded =
      let h = shared (succeeded, lost) refl in
      let (ne, is_shards) =
        derive_shard_assignments-eq-ok total active settings.base_port as' derived in
      let acc =
        (derive_shard_assignments_iff (pos total) active settings.base_port as').0 derived in
      let out = reported session_id lost t in
      let all_ids : IsDistinct (ids as') =
        rw (is_shards, ids-shards total settings.base_port (length active) 0 active) acc.distinct in
      record {
        delivered = h.delivered;
        lost = lost;
        split = subst (λ l. Split l h.delivered lost) is_shards h.split;
        is_result = ground (arith, h.succeeded, null-ids h.delivered);
        entries = h.entries;
        messages = h.messages;
        taken = ap (λ (c : S × List Attempt). accepted c.1) out.0 ∙ h.taken;
        once_each = (IsDistinct-Split h.split all_ids).0;
        sessions = out.1 ∙ books.sessions;
        report =
            out.2
            ∙ ap
                (λ (l : List PartialFailure).
                  if null lost then l else l ++ failure session_id lost ∷ [])
                books.log;
        blocks =
            sym (block_total-Split h.split)
            ∙ derive_shard_assignments-block_total total active settings.base_port as' derived;
      }

  -- If `_send_to_senders` returns, each shard of the file either was taken, once, by the sender that
  -- it belongs to, as the encoded message for that shard, or is lost; nothing else was taken by the
  -- server; no sender took two messages; the blocks of the two kinds add up to the file. The result
  -- names the senders that took theirs, and is None if there are none. If a shard is lost, one report
  -- of exactly the lost shards is logged, and otherwise none.
  pub send_to_senders-IsDispatched :
      (total : ℕ) (active : List SenderId) (s : State (S × List Attempt))
      → (result : Option (List SenderId))
      → (send_to_senders (traced env) settings session_id file (pos total) active s).0 ≡ ok result
      → IsDispatched total active s
          (send_to_senders (traced env) settings session_id file (pos total) active s).1
          result
  send_to_senders-IsDispatched total active s result e =
      elim (Result-cases (derive_shard_assignments (pos total) active settings.base_port)) [
        | inl (as', derived) ↦
            let same = send_to_senders-eq total active s derived in
            rw same (
              finish total active s (loop as' s).1 as' (loop as' s).0 result derived
                (send_shards-SameBooks (traced env) settings session_id file as' s)
                (share env settings session_id file as' s) (rw same at e))
        | inr (x, failed) ↦ absurd (send_to_senders-err total active s result failed e)
      ]
