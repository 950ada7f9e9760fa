-- ===== src/Services/Dispatcher.antt =====
-- src/file_monitor/services/dispatcher.py. The injected IPC server, and what the other tasks of the
-- event loop do while this one waits, are a parameter; the size and the hash of the file, the reading
-- of the clock and the random bytes are arguments. Of the log, the report of a partial failure is
-- kept; the other lines are left out.
pub mod Delivery
pub mod Sharing
pub mod Books
pub mod Session
pub mod Recorded
pub mod Total
pub mod Keeps
use file_monitor.Prelude.{
  ℕ, zero, suc, ◌≡◌, Bool, true, false, Option, none, some, List, [], ◌∷◌, ◌++◌, map, if◌then◌else◌,
  null, length, ℤ, pos, Result, ok, err, ◌>>=◌, Error,
}
use file_monitor.Python.Text.{Text, Bytes}
use file_monitor.Python.Equality.{nat_eq, list_eq}
use file_monitor.Python.Dict
use file_monitor.Python.Dict.{Dict, put}
use file_monitor.Python.Paths.{FilePath, as_posix}
use file_monitor.Domain.Models.{SenderId, FecParams, SourceFile, ShardAssignment}
use file_monitor.Domain.Planning.{calculate_block_count, derive_shard_assignments}
use file_monitor.Domain.Planning.Shards.Partition.{block_total}
use file_monitor.Ipc.Messages.{Ranges, assign_session}
use file_monitor.Ipc.Codec.{Protobuf, encode}
use file_monitor.Services.Registry.{SenderRegistry, active_senders}
use file_monitor.Services.Registry
use file_monitor.Services.Planner.{
  SessionId, build_manifest, build_assign_session, generate_session_id, unset_sender_bps_limit,
}

abbrev pub max_dispatch_attempts : ℕ
max_dispatch_attempts = 2

-- What `IpcServer.send` does: it returns, or raises UnknownSenderError or SendQueueFullError.
pub data Sending : Type 0 where
  sent unknown_sender queue_full : Sending

-- The server, over its state `S`. While the dispatcher sleeps or waits for a hash, other tasks may
-- change the registry and the server.
pub record Environment (S : Type 0) : Type 0 where
  pub send : SenderId → Bytes → S → Sending × S
  pub during_hash : SenderRegistry × S → SenderRegistry × S
  pub during_sleep : SenderRegistry × S → SenderRegistry × S

-- the fields that `__init__` sets and nothing changes
pub record Settings : Type 0 where
  pub ranges : Ranges
  pub protobuf : Protobuf
  pub fec_params : FecParams
  pub watch_root : FilePath
  pub target_host : Text
  pub base_port : ℤ

-- the log line of `_log_partial_failure`
pub record PartialFailure : Type 0 where
  pub session_id : SessionId
  pub failed_sender_ids : List SenderId
  pub lost_block_count : ℕ
  pub lost_shards : List (SenderId × ℕ × ℕ × ℕ)

pub record State (S : Type 0) : Type 0 where
  pub registry : SenderRegistry
  pub ipc : S
  pub dispatched_sessions : Dict SessionId (List SenderId)
  pub log : List PartialFailure

module _ {S : Type 0} (env : Environment S) where
  -- the effect of other tasks on the state
  abbrev interleave : (SenderRegistry × S → SenderRegistry × S) → State S → State S
  interleave tasks s =
      let (registry, ipc) = tasks (s.registry, s.ipc) in record s { registry = registry; ipc = ipc }

  -- the sleep before another attempt; there is none behind the last attempt
  pause : ℕ → State S → State S
  pause zero s = s
  pause (suc left) s = interleave env.during_sleep s

  -- The loop of `_deliver`, with the number of attempts left.
  deliver_attempts : ℕ → SenderId → Bytes → State S → Bool × State S
  unfolding pause
  deliver_attempts zero sender_id payload s = (false, s)
  deliver_attempts (suc left) sender_id payload s =
      let (result, ipc) = env.send sender_id payload s.ipc in
      let s' : State S = record s { ipc = ipc } in
      let retry = deliver_attempts left sender_id payload (pause left s') in
      elim result [
        | sent ↦ (true, s')
        | unknown_sender ↦ (false, record s' { registry = Registry.remove sender_id s'.registry })
        | queue_full ↦ retry
      ]

  unfoldable pub deliver : ShardAssignment → Bytes → State S → Bool × State S
  unfolding deliver_attempts
  deliver assignment payload s =
      deliver_attempts max_dispatch_attempts assignment.sender_id payload s

-- the message for one shard, encoded
unfoldable pub make_payload : Settings → SessionId → SourceFile → ShardAssignment → Result Bytes
make_payload settings session_id source_file assignment = do
  manifest ←
      build_manifest settings.ranges source_file settings.fec_params session_id
        (pos assignment.shard_residue) (pos assignment.shard_modulus) settings.watch_root
        unset_sender_bps_limit
  message ←
      build_assign_session settings.ranges manifest (pos assignment.shard_modulus)
        settings.target_host assignment.target_port (as_posix source_file.path)
  encode settings.protobuf (assign_session message)

-- `succeeded` and `lost_assignments`
abbrev pub Outcome : Type 0
Outcome = List SenderId × List ShardAssignment

abbrev note : Bool → ShardAssignment → Outcome → Outcome
note true a (succeeded, lost) = (a.sender_id ∷ succeeded, lost)
note false a (succeeded, lost) = (succeeded, a ∷ lost)

log_partial_failure : {S : Type 0} → SessionId → List ShardAssignment → State S → State S
log_partial_failure session_id lost s = record s {
  log =
      s.log
      ++ record {
        session_id = session_id;
        failed_sender_ids = map (λ a. a.sender_id) lost;
        lost_block_count = block_total lost;
        lost_shards =
            map (λ a. (a.sender_id, a.shard_residue, a.shard_modulus, length a.assigned_blocks))
              lost;
      }
        ∷ [];
}

module _ {S : Type 0} (env : Environment S) (settings : Settings) where
  -- The loop of `_send_to_senders`. An exception leaves what was sent before it sent.
  unfoldable pub send_shards :
      SessionId → SourceFile → List ShardAssignment → State S → Result Outcome × State S
  send_shards session_id source_file [] s = (ok ([], []), s)
  send_shards session_id source_file (a ∷ rest) s =
      elim (make_payload settings session_id source_file a) [
        | err e ↦ (err e, s)
        | ok payload ↦
            let (delivered, s') = deliver env a payload s in
            let (outcome, s'') = send_shards session_id source_file rest s' in
            (do o ← outcome; ok (note delivered a o), s'')
      ]

  -- `succeeded or None`, after the report of what was lost
  abbrev conclude : SessionId → Result Outcome × State S → Result (Option (List SenderId)) × State S
  conclude session_id (err e, s) = (err e, s)
  conclude session_id (ok (succeeded, lost), s) = (
    ok (if null succeeded then none else some succeeded),
    if null lost then s else log_partial_failure session_id lost s,
  )

  unfoldable pub send_to_senders :
      SessionId
      → SourceFile
      → ℤ
      → List SenderId
      → State S
      → Result (Option (List SenderId)) × State S
  unfolding send_shards log_partial_failure
  send_to_senders session_id source_file total_blocks active s =
      elim (derive_shard_assignments total_blocks active settings.base_port) [
        | err e ↦ (err e, s)
        | ok assignments ↦ conclude session_id (send_shards session_id source_file assignments s)
      ]

  -- the end of `dispatch`: a session is recorded if a sender took its shard
  abbrev record_session :
      SessionId → Result (Option (List SenderId)) × State S → Result (Option SessionId) × State S
  record_session session_id (err e, s) = (err e, s)
  record_session session_id (ok none, s) = (ok none, s)
  record_session session_id (ok (some succeeded), s) = (
    ok (some session_id),
    record s { dispatched_sessions = put s.dispatched_sessions session_id succeeded },
  )

  -- `dispatch`, from the hash on
  dispatch_hashed :
      (now : ℕ)
      → (random_bytes : Bytes) → SourceFile
      → State S
      → Result (Option SessionId) × State S
  dispatch_hashed now random_bytes source_file s =
      let (active, registry) = active_senders now s.registry in
      let s' : State S = record s { registry = registry } in
      let session_id = generate_session_id random_bytes in
      if null active
      then (ok none, s')
      else (elim (calculate_block_count source_file.size_bytes settings.fec_params) [
        | err e ↦ (err e, s')
        | ok total_blocks ↦
            record_session session_id
              (send_to_senders session_id source_file total_blocks active s')
      ])

  -- `size` is what path.stat() gives and `hash` what the hasher gives; either may raise.
  unfoldable pub dispatch :
      (now : ℕ)
      → (random_bytes : Bytes) → (size : Result ℤ) → (hash : Result Text) → FilePath
      → State S
      → Result (Option SessionId) × State S
  unfolding dispatch_hashed send_to_senders
  dispatch now random_bytes (err e) hash path s = (err e, s)
  dispatch now random_bytes (ok size) hash path s =
      let s' = interleave env env.during_hash s in
      elim hash [
        | err e ↦ (err e, s')
        | ok file_hash ↦
            dispatch_hashed now random_bytes
              (record { path = path; size_bytes = size; file_hash = file_hash }) s'
      ]

unfoldable pub complete_session : {S : Type 0} → SessionId → State S → State S
complete_session session_id s = record s {
  dispatched_sessions = Dict.remove s.dispatched_sessions session_id;
}
