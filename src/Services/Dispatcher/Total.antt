-- ===== src/Services/Dispatcher/Total.antt =====
-- src/file_monitor/services/dispatcher.py: with a valid configuration a dispatch does not raise.
use file_monitor.Prelude.{
  ℕ, suc, ◌+◌, ◌^◌, ◌≤◌, ◌<◌, ◌≡◌, ◌≢◌, refl, sym, subst, true, false, Option, none, some, List, [],
  ◌∷◌, arith, null, length, All, ℤ, pos, Result, ok, err, if◌then◌else◌, Bool-cases, inl, inr,
}
use file_monitor.Python.Text.{Text, Bytes, IsBytes}
use file_monitor.Python.TrueDivision.{ceil_div}
use file_monitor.Python.Hex.{hex}
use file_monitor.Python.Paths.{FilePath, is_absolute, join, has_part, dots, as_posix}
use file_monitor.Python.Sets.{IsDistinct}
use file_monitor.Domain.Models.{SenderId, SourceFile, ShardAssignment, block_size}
use file_monitor.Domain.Planning.{calculate_block_count}
use file_monitor.Domain.Planning.Count.{calculate_block_count_lem}
use file_monitor.Domain.Planning.Shards.{shards, derive_shard_assignments_iff}
use file_monitor.Ipc.Messages
use file_monitor.Ipc.Messages.{AssignSession, assign_session}
use file_monitor.Ipc.Codec.{assign_session_field_name, encode, field_name_by_message_type}
use file_monitor.Services.Registry.{active_senders}
use file_monitor.Services.Registry.Active.{IsValid, active_senders-IsSorted}
use file_monitor.Services.Planner.{
  SessionId, build_manifest, build_assign_session, generate_session_id, unset_sender_bps_limit,
}
use file_monitor.Services.Planner.Manifest.{build_manifest-total}
use file_monitor.Services.Dispatcher.{
  Environment, Settings, State, Outcome, interleave, deliver, note, make_payload, send_shards,
  send_to_senders, conclude, record_session, dispatch, dispatch_hashed,
}

-- What a configuration and the generated message classes have to grant.
pub record IsSound (settings : Settings) : Type 0 where
  pub size : ℕ
  pub is_size : block_size settings.fec_params ≡ pos size
  pub size_pos : 0 < size
  pub size_fits : size ≤ 2 ^ 1074
  pub port : ℕ
  pub is_port : settings.base_port ≡ pos (suc port)
  pub manifests : (m : Messages.Manifest) → settings.ranges.manifest_fits m ≡ true
  pub sessions : (m : AssignSession) → settings.ranges.assign_session_fits m ≡ true

-- A file below the watched directory, with the digest that its hash spells.
pub record IsFile (settings : Settings) (file : SourceFile) : Type 0 where
  pub size : ℕ
  pub is_size : file.size_bytes ≡ pos size
  pub small : size < 2 ^ 53
  pub relative : FilePath
  pub is_path : file.path ≡ join settings.watch_root relative
  pub not_absolute : is_absolute relative ≡ false
  pub no_dots : has_part dots relative.parts ≡ false
  pub digest : Bytes
  pub is_hash : file.file_hash ≡ hex digest
  pub length_digest : length digest ≡ 32
  pub bytes : IsBytes digest

module _ {S : Type 0} (env : Environment S) (settings : Settings) (sound : IsSound settings)
    (session_id : SessionId) (file : SourceFile) (is_file : IsFile settings file) where
  file_lem : file ≡ record {
    path = join settings.watch_root is_file.relative;
    size_bytes = pos is_file.size;
    file_hash = hex is_file.digest;
  }
  file_lem = λ i. record {
    path = is_file.is_path i;
    size_bytes = is_file.is_size i;
    file_hash = is_file.is_hash i;
  }

  counted :
      calculate_block_count (pos is_file.size) settings.fec_params
      ≡ ok (pos (ceil_div is_file.size sound.size))
  counted =
      calculate_block_count_lem is_file.size sound.size settings.fec_params sound.is_size
        sound.size_pos sound.size_fits is_file.small

  message : Messages.Manifest → ShardAssignment → AssignSession
  message m a = record {
    manifest = m;
    total_senders = pos a.shard_modulus;
    target_host = settings.target_host;
    target_port = a.target_port;
    source_path = as_posix file.path;
  }

  make_payload-ok :
      (a : ShardAssignment)
      → a.shard_residue < a.shard_modulus
      → (payload : Bytes) × (make_payload settings session_id file a ≡ ok payload)
  unfolding make_payload build_assign_session encode field_name_by_message_type message
  make_payload-ok a h =
      let (m, built, _, _) =
        build_manifest-total settings.ranges settings.fec_params session_id settings.watch_root
          unset_sender_bps_limit is_file.relative is_file.size a.shard_residue a.shard_modulus
          is_file.digest (pos (ceil_div is_file.size sound.size)) is_file.not_absolute
          is_file.no_dots is_file.length_digest is_file.bytes h counted sound.manifests in
      let built' =
        subst
          (λ f.
            build_manifest settings.ranges f settings.fec_params session_id (pos a.shard_residue)
              (pos a.shard_modulus) settings.watch_root unset_sender_bps_limit
            ≡ ok m)
          (sym file_lem) built in
      (
        settings.protobuf.serialize
            (some (assign_session_field_name, assign_session (message m a))),
        ground (arith, built', sound.sessions (message m a)),
      )

  send_shards-ok :
      (as' : List ShardAssignment) (s : State S)
      → All (λ a. a.shard_residue < a.shard_modulus) as'
      → (o : Outcome) × ((send_shards env settings session_id file as' s).0 ≡ ok o)
  unfolding send_shards
  send_shards-ok [] s h = (([], []), refl)
  send_shards-ok (a ∷ rest) s h =
      let (payload, made) = make_payload-ok a h.0 in
      let (o, rest_ok) = send_shards-ok rest (deliver env a payload s).1 h.1 in
      (note (deliver env a payload s).0 a o, rw (made, send_shards, rest_ok))

shards-residues :
    (total : ℕ) (base : ℤ) (m r : ℕ) (senders : List SenderId)
    → r + length senders ≤ m
    → All (λ a. a.shard_residue < a.shard_modulus) (shards total base m r senders)
shards-residues total base m r [] h = tt
shards-residues total base m r (s ∷ rest) h =
    (omega arith, shards-residues total base m (suc r) rest (omega arith))

not_empty : (xs : List SenderId) → null xs ≡ false → xs ≢ []
not_empty [] h = cc
not_empty (x ∷ xs) h = λ e. cc

conclude-ok :
    {S : Type 0} (env : Environment S) (settings : Settings) (id : SessionId)
    (r : Result Outcome × State S) {o : Outcome}
    → r.0 ≡ ok o
    → (a : Option (List SenderId)) × ((conclude env settings id r).0 ≡ ok a)
conclude-ok env settings id (ok (succeeded, lost), s) h =
    (if null succeeded then none else some succeeded, refl)
conclude-ok env settings id (err e, s) h = cc

record_session-ok :
    {S : Type 0} (env : Environment S) (settings : Settings) (id : SessionId)
    (r : Result (Option (List SenderId)) × State S) {a : Option (List SenderId)}
    → r.0 ≡ ok a
    → (b : Option SessionId) × ((record_session env settings id r).0 ≡ ok b)
record_session-ok env settings id (ok none, s) h = (none, refl)
record_session-ok env settings id (ok (some succeeded), s) h = (some id, refl)
record_session-ok env settings id (err e, s) h = cc

module _ {S : Type 0} (env : Environment S) (settings : Settings) (sound : IsSound settings)
    (file : SourceFile) (is_file : IsFile settings file) where
  send_to_senders-ok :
      (session_id : SessionId) (total : ℕ) (active : List SenderId) (s : State S)
      → active ≢ []
      → IsDistinct active
      → (r : Option (List SenderId)) × ((send_to_senders env settings session_id file
            (pos total)
            active
            s).0
          ≡ ok r)
  unfolding send_to_senders
  send_to_senders-ok session_id total active s ne distinct =
      let as' = shards total settings.base_port (length active) 0 active in
      let derived =
        (derive_shard_assignments_iff (pos total) active settings.base_port as').1 (record {
          some_sender = ne;
          distinct = distinct;
          total = total;
          is_total = refl;
          port = sound.port;
          is_port = sound.is_port;
          is_shards = refl;
        }) in
      let (o, sent_all) =
        send_shards-ok env settings sound session_id file is_file as' s
          (shards-residues total settings.base_port (length active) 0 active (omega arith)) in
      rw (derived, send_to_senders)
        (conclude-ok env settings session_id (send_shards env settings session_id file as' s)
          sent_all)

  dispatch_hashed-ok :
      (now : ℕ) (random_bytes : Bytes) (s : State S)
      → IsValid s.registry
      → (r : Option SessionId) × ((dispatch_hashed env settings now random_bytes file s).0 ≡ ok r)
  unfolding dispatch_hashed
  dispatch_hashed-ok now random_bytes s valid =
      let session_id = generate_session_id random_bytes in
      let active = (active_senders now s.registry).0 in
      let s' : State S = record s { registry = (active_senders now s.registry).1 } in
      let total = ceil_div is_file.size sound.size in
      elim (Bool-cases (null active)) [
        | inl none_active ↦ (none, rw none_active refl)
        | inr some_active ↦
            let (r, sent_all) =
              send_to_senders-ok session_id total active s' (not_empty active some_active)
                (active_senders-IsSorted now s.registry valid).1 in
            rw
              (
                some_active,
                is_file.is_size,
                dispatch_hashed,
                counted env settings sound session_id file is_file,
              )
              (record_session-ok env settings session_id
                (send_to_senders env settings session_id file (pos total) active s') sent_all)
      ]

-- With a block size above 0, a base port above 0 and messages whose fields fit, and for a file of less
-- than 2 ^ 53 bytes below the watched directory whose hash is the digest in hexadecimal, a dispatch
-- raises nothing, whatever the senders and the other tasks do, as long as the registry they leave
-- holds each sender once.
pub dispatch-ok :
    {S : Type 0} (env : Environment S) (settings : Settings) (now : ℕ) (random_bytes : Bytes)
    (size : ℤ) (hash : Text) (path : FilePath) (s : State S)
    → IsSound settings
    → IsFile settings (record { path = path; size_bytes = size; file_hash = hash })
    → IsValid (env.during_hash (s.registry, s.ipc)).0
    → (r : Option SessionId) × ((dispatch env settings now random_bytes
          (ok size)
          (ok hash)
          path
          s).0
        ≡ ok r)
unfolding dispatch
dispatch-ok env settings now random_bytes size hash path s sound is_file valid =
    dispatch_hashed-ok env settings sound
      (record { path = path; size_bytes = size; file_hash = hash }) is_file now random_bytes
      (interleave env env.during_hash s) valid
