-- ===== src/Services/Dispatcher/Delivery.antt =====
-- src/file_monitor/services/dispatcher.py: `_deliver` against a server whose calls are recorded.
use file_monitor.Prelude.{
  ℕ, zero, suc, ◌+◌, ◌≤◌, ◌≡◌, refl, sym, ap, ◌∙◌, Bool, true, false, List, [], ◌∷◌, ◌++◌, arith,
  length, length-append,
}
use mathlib.Core.List.{append-nil}
use file_monitor.Python.Text.{Bytes}
use file_monitor.Domain.Models.{SenderId, ShardAssignment}
use file_monitor.Services.Registry
use file_monitor.Services.Dispatcher.{
  Sending, sent, unknown_sender, queue_full, Environment, State, pause, deliver_attempts, deliver,
}

-- A call of `send`, with its answer.
pub record Attempt : Type 0 where
  pub sender_id : SenderId
  pub payload : Bytes
  pub answer : Sending

-- The same server, with the list of the calls of `send` behind its state.
abbrev pub traced : {S : Type 0} → Environment S → Environment (S × List Attempt)
traced env = record {
  send = λ sender_id payload (ipc, calls).
      let (answer, ipc') = env.send sender_id payload ipc in
      (
        answer,
        (ipc', calls ++ record { sender_id = sender_id; payload = payload; answer = answer } ∷ []),
      );
  during_hash = λ (registry, (ipc, calls)).
      let (registry', ipc') = env.during_hash (registry, ipc) in (registry', (ipc', calls));
  during_sleep = λ (registry, (ipc, calls)).
      let (registry', ipc') = env.during_sleep (registry, ipc) in (registry', (ipc', calls));
}

-- the calls that the server took
abbrev pub accepted : List Attempt → List (SenderId × Bytes)
accepted [] = []
accepted (a ∷ as') = elim a.answer [
  | sent ↦ (a.sender_id, a.payload) ∷ accepted as'
  | unknown_sender ↦ accepted as'
  | queue_full ↦ accepted as'
]

pub accepted-append : (xs ys : List Attempt) → accepted (xs ++ ys) ≡ accepted xs ++ accepted ys
accepted-append [] ys = refl
accepted-append (x ∷ xs) ys = ground (arith, accepted-append xs ys)

module _ {S : Type 0} (env : Environment S) (sender_id : SenderId) (payload : Bytes) where
  abbrev run : ℕ → State (S × List Attempt) → Bool × State (S × List Attempt)
  run n s = deliver_attempts (traced env) n sender_id payload s

  abbrev pub once : Bool → List (SenderId × Bytes)
  once true = (sender_id, payload) ∷ []
  once false = []

  calls-pause : (n : ℕ) (s : State (S × List Attempt)) → (pause (traced env) n s).ipc.1 ≡ s.ipc.1
  unfolding pause
  calls-pause zero s = refl
  calls-pause (suc n) s = refl

  -- the state behind a call of `send`
  abbrev called : State (S × List Attempt) → State (S × List Attempt)
  called s = record s { ipc = ((traced env).send sender_id payload s.ipc).1 }

  abbrev answer : State (S × List Attempt) → Sending
  answer s = (env.send sender_id payload s.ipc.0).0

  -- what an attempt makes of the answer
  abbrev resume : ℕ → State (S × List Attempt) → Sending → Bool × State (S × List Attempt)
  resume n s sent = (true, called s)
  resume n s unknown_sender =
      (false, record (called s) { registry = Registry.remove sender_id s.registry })
  resume n s queue_full = run n (pause (traced env) n (called s))

  run-suc : (n : ℕ) (s : State (S × List Attempt)) → run (suc n) s ≡ resume n s (answer s)
  unfolding deliver_attempts
  run-suc n s = ground arith

  accepted-called :
      (s : State (S × List Attempt)) {x : Sending}
      → answer s ≡ x
      → accepted (called s).ipc.1
        ≡ accepted s.ipc.1
          ++ accepted (record { sender_id = sender_id; payload = payload; answer = x } ∷ [])
  accepted-called s e =
      accepted-append s.ipc.1 _
      ∙ ap
          (λ (y : Sending).
            accepted s.ipc.1
            ++ accepted (record { sender_id = sender_id; payload = payload; answer = y } ∷ []))
          e

  run-accepted :
      (n : ℕ) (s : State (S × List Attempt))
      → accepted (run n s).1.ipc.1 ≡ accepted s.ipc.1 ++ once (run n s).0
  run-accepted zero s = unfold deliver_attempts in sym (append-nil _)
  run-accepted (suc n) s =
      rw run-suc (resumed (answer s) refl (run-accepted n (pause (traced env) n (called s))))
    where
      resumed :
          (x : Sending)
          → answer s ≡ x
          → accepted (run n (pause (traced env) n (called s))).1.ipc.1
            ≡ accepted (pause (traced env) n (called s)).ipc.1
              ++ once (run n (pause (traced env) n (called s))).0
          → accepted (resume n s x).1.ipc.1 ≡ accepted s.ipc.1 ++ once (resume n s x).0
      resumed sent e ih = accepted-called s e
      resumed unknown_sender e ih = accepted-called s e
      resumed queue_full e ih =
          ih
          ∙ ap (λ l. l ++ once (run n (pause (traced env) n (called s))).0)
              (ap accepted (calls-pause n (called s))
                ∙ accepted-called s e
                ∙ append-nil (accepted s.ipc.1))

  length-called : (s : State (S × List Attempt)) → length (called s).ipc.1 ≡ length s.ipc.1 + 1
  length-called s = length-append s.ipc.1 _ ∙ omega arith

  run-calls : (n : ℕ) (s : State (S × List Attempt)) → length (run n s).1.ipc.1 ≤ length s.ipc.1 + n
  run-calls zero s = unfold deliver_attempts in omega arith
  run-calls (suc n) s =
      rw run-suc (resumed (answer s) (run-calls n (pause (traced env) n (called s))))
    where
      resumed :
          (x : Sending)
          → length (run n (pause (traced env) n (called s))).1.ipc.1
            ≤ length (pause (traced env) n (called s)).ipc.1 + n
          → length (resume n s x).1.ipc.1 ≤ length s.ipc.1 + suc n
      resumed sent ih = omega (arith, length-called s)
      resumed unknown_sender ih = omega (arith, length-called s)
      resumed queue_full ih = omega (arith, length-called s, ap length (calls-pause n (called s)))

-- One delivery makes two calls of `send` at most. The server takes the payload exactly once if the
-- delivery succeeds, and never if it fails; nothing else is sent.
pub deliver-accepted :
    {S : Type 0} (env : Environment S) (a : ShardAssignment) (payload : Bytes)
    → (s : State (S × List Attempt))
    → (accepted (deliver (traced env) a payload s).1.ipc.1
        ≡ accepted s.ipc.1 ++ once env a.sender_id payload (deliver (traced env) a payload s).0)
      × (length (deliver (traced env) a payload s).1.ipc.1 ≤ length s.ipc.1 + 2)
unfolding deliver
deliver-accepted env a payload s =
    (run-accepted env a.sender_id payload 2 s, run-calls env a.sender_id payload 2 s)
