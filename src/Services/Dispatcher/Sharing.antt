-- ===== src/Services/Dispatcher/Sharing.antt =====
-- src/file_monitor/services/dispatcher.py: the loop of `_send_to_senders` shares the assignments out
-- into those that a sender took and those that are lost.
use mathlib.Core.List.{append_assoc, append-nil}
use file_monitor.Prelude.{
  ◌+◌, ◌≡◌, ◌≢◌, refl, sym, ap, >>=-eq-ok, ◌∙◌, Bool, true, false, ◌||◌, List, [], ◌∷◌, ◌++◌, map,
  arith, Result, ok, err, ◌>>=◌, Error, Result-cases, inl, inr,
}
use file_monitor.Python.Text.{Bytes}
use file_monitor.Python.Sets.{elem, IsDistinct}
use file_monitor.Domain.Models.{SenderId, SourceFile, ShardAssignment}
use file_monitor.Domain.Planning.Shards.Partition.{block_total}
use file_monitor.Services.Planner.{SessionId}
use file_monitor.Services.Dispatcher.{
  Environment, Settings, State, Outcome, note, deliver, make_payload, send_shards,
}
use file_monitor.Services.Dispatcher.Delivery.{Attempt, traced, accepted, once, deliver-accepted}

-- Every element goes to one of two lists, in order.
pub data Split {ℓ} {A : Type ℓ} : List A → List A → List A → Type ℓ where
  nil : Split [] [] []
  left : (a : A) {as' xs ys : List A} → Split as' xs ys → Split (a ∷ as') (a ∷ xs) ys
  right : (a : A) {as' xs ys : List A} → Split as' xs ys → Split (a ∷ as') xs (a ∷ ys)

pub block_total-Split :
    {as' xs ys : List ShardAssignment}
    → Split as' xs ys
    → block_total as' ≡ block_total xs + block_total ys
block_total-Split nil = refl
block_total-Split (left a s) = omega (arith, block_total-Split s)
block_total-Split (right a s) = omega (arith, block_total-Split s)

abbrev pub ids : List ShardAssignment → List SenderId
ids as' = map (λ a. a.sender_id) as'

elem-Split :
    (x : SenderId) {as' xs ys : List ShardAssignment}
    → Split as' xs ys
    → elem x (ids as') ≡ (elem x (ids xs) || elem x (ids ys))
elem-Split x nil = refl
elem-Split x (left a s) = ground (arith, elem-Split x s)
elem-Split x (right a s) = ground (arith, elem-Split x s)

pub IsDistinct-Split :
    {as' xs ys : List ShardAssignment}
    → Split as' xs ys
    → IsDistinct (ids as')
    → IsDistinct (ids xs) × IsDistinct (ids ys)
IsDistinct-Split nil d = (tt, tt)
IsDistinct-Split (left a s) d = ground (arith, elem-Split a.sender_id s, IsDistinct-Split s d.1)
IsDistinct-Split (right a s) d = ground (arith, elem-Split a.sender_id s, IsDistinct-Split s d.1)

module _ {S : Type 0} (env : Environment S) (settings : Settings) (session_id : SessionId)
    (file : SourceFile) where
  -- The entries are the encoded messages of the assignments, addressed to their senders.
  abbrev pub AreMessages : List ShardAssignment → List (SenderId × Bytes) → Type 0
  AreMessages [] [] = Unit
  AreMessages [] (e ∷ es) = ⊥
  AreMessages (a ∷ as') [] = ⊥
  AreMessages (a ∷ as') ((sender_id, payload) ∷ es) =
      (sender_id ≡ a.sender_id)
      × (make_payload settings session_id file a ≡ ok payload)
      × AreMessages as' es

  -- How the loop, run from `s` to `s'`, dealt with its assignments.
  pub record IsShared (as' : List ShardAssignment) (s s' : State (S × List Attempt)) (o : Outcome)
      : Type 0 where
    pub delivered : List ShardAssignment
    pub split : Split as' delivered o.1
    pub succeeded : o.0 ≡ ids delivered
    pub entries : List (SenderId × Bytes)
    pub messages : AreMessages delivered entries
    pub taken : accepted s'.ipc.1 ≡ accepted s.ipc.1 ++ entries

  abbrev tail :
      ShardAssignment
      → Bytes
      → List ShardAssignment
      → State (S × List Attempt)
      → Result Outcome × State (S × List Attempt)
  tail a payload rest s =
      send_shards (traced env) settings session_id file rest (deliver (traced env) a payload s).1

  send_shards-cons :
      (a : ShardAssignment) (rest : List ShardAssignment) (s : State (S × List Attempt))
      {payload : Bytes}
      → make_payload settings session_id file a ≡ ok payload
      → send_shards (traced env) settings session_id file (a ∷ rest) s ≡ (
        do o ← (tail a payload rest s).0; ok (note (deliver (traced env) a payload s).0 a o),
        (tail a payload rest s).1,
      )
  unfolding send_shards
  send_shards-cons a rest s e = rw (e, send_shards)

  extend :
      (a : ShardAssignment) (b : Bool) (payload : Bytes) (rest : List ShardAssignment)
      → (s t u : State (S × List Attempt)) (o : Outcome)
      → make_payload settings session_id file a ≡ ok payload
      → accepted t.ipc.1 ≡ accepted s.ipc.1 ++ once env a.sender_id payload b
      → IsShared rest t u o
      → IsShared (a ∷ rest) s u (note b a o)
  extend a true payload rest s t u o made taken h = record {
    delivered = a ∷ h.delivered;
    split = left a h.split;
    succeeded = ap (λ l. a.sender_id ∷ l) h.succeeded;
    entries = (a.sender_id, payload) ∷ h.entries;
    messages = (refl, made, h.messages);
    taken = h.taken ∙ ap (λ l. l ++ h.entries) taken ∙ append_assoc (accepted s.ipc.1) _ h.entries;
  }
  extend a false payload rest s t u o made taken h = record {
    delivered = h.delivered;
    split = right a h.split;
    succeeded = h.succeeded;
    entries = h.entries;
    messages = h.messages;
    taken = h.taken ∙ ap (λ l. l ++ h.entries) (taken ∙ append-nil (accepted s.ipc.1));
  }

  send_shards-err :
      (a : ShardAssignment) (rest : List ShardAssignment) (s : State (S × List Attempt))
      (o : Outcome) {x : Error}
      → make_payload settings session_id file a ≡ err x
      → (send_shards (traced env) settings session_id file (a ∷ rest) s).0 ≢ ok o
  unfolding send_shards
  send_shards-err a rest s o failed e = ground arith

  pub share :
      (as' : List ShardAssignment) (s : State (S × List Attempt)) (o : Outcome)
      → (send_shards (traced env) settings session_id file as' s).0 ≡ ok o
      → IsShared as' s (send_shards (traced env) settings session_id file as' s).1 o
  unfolding send_shards
  share [] s o e =
      let same : o ≡ ([], []) = unfold send_shards in cc (e) in
      rw (same, send_shards)
        (record {
          delivered = [];
          split = nil;
          succeeded = refl;
          entries = [];
          messages = tt;
          taken = sym (append-nil (accepted s.ipc.1));
        })
  share (a ∷ rest) s o e = elim (Result-cases (make_payload settings session_id file a)) [
    | inl (payload, made) ↦
        let step = send_shards-cons a rest s made in
        let (o', tail_ok, noted) =
          >>=-eq-ok (tail a payload rest s).0
            (λ o'. ok (note (deliver (traced env) a payload s).0 a o')) (rw step at e) in
        let same : o ≡ note (deliver (traced env) a payload s).0 a o' = cc (noted) in
        rw (step, same)
          (extend a (deliver (traced env) a payload s).0 payload rest s
            (deliver (traced env) a payload s).1 (tail a payload rest s).1 o' made
            (deliver-accepted env a payload s).0
            (share rest (deliver (traced env) a payload s).1 o' tail_ok))
    | inr (x, failed) ↦ absurd (send_shards-err a rest s o failed e)
  ]
