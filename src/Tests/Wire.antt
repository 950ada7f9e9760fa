-- ===== src/Tests/Wire.antt =====
-- A wire format that grants what src/file_monitor/ipc/ needs of the protobuf runtime.
use file_monitor.Prelude.{
  ℕ, zero, suc, ◌≡◌, refl, Option, none, some, [], ◌∷◌, ◌++◌, length, ℤ, ◌==◌, if◌then◌else◌, pos,
  negsuc,
}
use file_monitor.Python.Text.{Text, Bytes}
use file_monitor.Ipc.Messages.{
  Manifest, AssignSession, Message, sender_hello, heartbeat, sender_progress, session_complete,
  local_congestion, assign_session, update_rate, abort, foreign, Envelope,
}
use file_monitor.Ipc.Codec.{
  Protobuf, field_name_by_message_type, sender_hello_field_name, heartbeat_field_name,
  sender_progress_field_name, session_complete_field_name, local_congestion_field_name,
  assign_session_field_name, update_rate_field_name, abort_field_name,
}

infixl 5 ◌>>=◌
abbrev ◌>>=◌ {ℓ κ} : {A : Type ℓ} {B : Type κ} → Option A → (A → Option B) → Option B
some a >>= f = f a
none >>= f = none

put_int : ℤ → Bytes → Bytes
put_int (pos n) rest = 0 ∷ n ∷ rest
put_int (negsuc n) rest = 1 ∷ n ∷ rest

get_int : Bytes → Option (ℤ × Bytes)
get_int (zero ∷ n ∷ rest) = some (pos n, rest)
get_int (suc _ ∷ n ∷ rest) = some (negsuc n, rest)
get_int _ = none

get_int-put_int : (z : ℤ) (rest : Bytes) → get_int (put_int z rest) ≡ some (z, rest)
unfolding put_int get_int
get_int-put_int (pos n) rest = refl
get_int-put_int (negsuc n) rest = refl

put_text : Text → Bytes → Bytes
put_text t rest = length t ∷ t ++ rest

split : ℕ → Bytes → Option (Text × Bytes)
split zero rest = some ([], rest)
split (suc n) [] = none
split (suc n) (x ∷ rest) = do (t, rest') ← split n rest; some (x ∷ t, rest')

get_text : Bytes → Option (Text × Bytes)
get_text [] = none
get_text (n ∷ rest) = split n rest

get_text-put_text : (t : Text) (rest : Bytes) → get_text (put_text t rest) ≡ some (t, rest)
unfolding put_text get_text split
get_text-put_text [] rest = refl
get_text-put_text (x ∷ t) rest = rw (get_text-put_text t rest)

put_session : AssignSession → Bytes
unfolding put_int put_text
put_session a =
    let m = a.manifest in
    put_text m.session_id (
      put_text m.filepath (
        put_int m.file_size (
          put_text m.file_hash (
            put_int m.k (
              put_int m.n (
                put_int m.block_bytes (
                  put_int m.total_blocks (
                    put_int m.sender_bps_limit (
                      put_int m.sender_id (
                        put_int a.total_senders (
                          put_text a.target_host
                            (put_int a.target_port (put_text a.source_path [])))))))))))))

get_manifest : Bytes → Option (Manifest × Bytes)
unfolding get_int get_text
get_manifest r = do
  (session_id, r) ← get_text r
  (filepath, r) ← get_text r
  (file_size, r) ← get_int r
  (file_hash, r) ← get_text r
  (k, r) ← get_int r
  (n, r) ← get_int r
  (block_bytes, r) ← get_int r
  (total_blocks, r) ← get_int r
  (sender_bps_limit, r) ← get_int r
  (sender_id, r) ← get_int r
  some (
    record {
      session_id = session_id;
      filepath = filepath;
      file_size = file_size;
      file_hash = file_hash;
      k = k;
      n = n;
      block_bytes = block_bytes;
      total_blocks = total_blocks;
      sender_bps_limit = sender_bps_limit;
      sender_id = sender_id;
    },
    r,
  )

get_session : Bytes → Option AssignSession
unfolding get_manifest get_int get_text
get_session r = do
  (manifest, r) ← get_manifest r
  (total_senders, r) ← get_int r
  (target_host, r) ← get_text r
  (target_port, r) ← get_int r
  (source_path, r) ← get_text r
  some (record {
    manifest = manifest;
    total_senders = total_senders;
    target_host = target_host;
    target_port = target_port;
    source_path = source_path;
  })

get_session-put_session : (a : AssignSession) → get_session (put_session a) ≡ some a
unfolding get_session put_session get_manifest
get_session-put_session a = simp (get_text-put_text, get_int-put_int)

-- The field name follows from the message; the first number says which message it is.
unfoldable pub serialize : Envelope → Bytes
unfolding put_session put_int put_text
serialize none = []
serialize (some (field_name, sender_hello m)) = 1 ∷ m.sender_id ∷ m.proto_hash
serialize (some (field_name, heartbeat m)) = 2 ∷ m
serialize (some (field_name, sender_progress m)) = 3 ∷ m
serialize (some (field_name, session_complete m)) = 4 ∷ m.session_id
serialize (some (field_name, local_congestion m)) = 5 ∷ m
serialize (some (field_name, assign_session m)) = 6 ∷ put_session m
serialize (some (field_name, update_rate m)) = 7 ∷ m
serialize (some (field_name, abort m)) = 8 ∷ m
serialize (some (field_name, foreign m)) = 9 ∷ m

parse_hello : Bytes → Option Envelope
parse_hello [] = none
parse_hello (sender_id ∷ proto_hash) = some (
    some (
      sender_hello_field_name,
      sender_hello (record { sender_id = sender_id; proto_hash = proto_hash }),
    ))

unfoldable pub parse : Bytes → Option Envelope
unfolding get_session get_manifest get_int get_text split parse_hello
parse [] = some none
parse (tag ∷ m) =
    if tag == 1
    then parse_hello m
    else if tag == 2
    then some (some (heartbeat_field_name, heartbeat m))
    else if tag == 3
    then some (some (sender_progress_field_name, sender_progress m))
    else if tag == 4
    then some (some (session_complete_field_name, session_complete (record { session_id = m })))
    else if tag == 5
    then some (some (local_congestion_field_name, local_congestion m))
    else if tag == 6
    then (do a ← get_session m; some (some (assign_session_field_name, assign_session a)))
    else if tag == 7
    then some (some (update_rate_field_name, update_rate m))
    else if tag == 8
    then some (some (abort_field_name, abort m))
    else none

pub parse-serialize :
    (message : Message) (field_name : Text)
    → field_name_by_message_type message ≡ some field_name
    → parse (serialize (some (field_name, message))) ≡ some (some (field_name, message))
unfolding parse serialize field_name_by_message_type
parse-serialize (sender_hello m) n e = cc (e)
parse-serialize (heartbeat m) n e = cc (e)
parse-serialize (sender_progress m) n e = cc (e)
parse-serialize (session_complete m) n e = cc (e)
parse-serialize (local_congestion m) n e = cc (e)
parse-serialize (assign_session m) n e = rw (get_session-put_session m) (cc (e))
parse-serialize (update_rate m) n e = cc (e)
parse-serialize (abort m) n e = cc (e)
parse-serialize (foreign m) n e = absurd (cc)

abbrev pub wire : Protobuf
wire = record { serialize = serialize; parse = parse; parse-serialize = parse-serialize }
