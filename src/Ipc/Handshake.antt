-- ===== src/Ipc/Handshake.antt =====
-- src/file_monitor/ipc/handshake.py: the hash of the contract, and its comparison.
pub mod Contract
use file_monitor.Prelude.{
  ℕ, ◌≡◌, Bool, true, false, ◌||◌, not, List, [], ◌∷◌, filter, Result, ok, err, Error, ◌>>=◌,
  raise_if, proto_hash_mismatch,
}
use file_monitor.Python.Text.{Text, Bytes, codes}
use file_monitor.Python.Equality.{◌==◌, nat_eq, list_eq}
use file_monitor.Python.Names.{sorted}
use file_monitor.Domain.Models.{SenderId}
use file_monitor.Adapters.Blake3.{Blake3}

-- Does the text end with the suffix?
unfoldable pub ends_with : Text → Text → Bool
ends_with suffix [] = suffix == []
ends_with suffix (c ∷ cs) = suffix == c ∷ cs || ends_with suffix cs

-- the names that `glob("*.proto")` finds
abbrev pub is_proto : Text → Bool
is_proto name = ends_with (codes ".proto") name

-- An entry of the directory: its name, and what reading it gives.
abbrev pub Entry : Type 0
Entry = Text × Result Bytes

-- The loop. The first file that cannot be read raises out of it.
unfoldable pub update_all : (blake3 : Blake3) → blake3.Hasher → List Entry → Result Bytes
update_all blake3 hasher [] = ok (blake3.digest hasher)
update_all blake3 hasher (path ∷ paths) = do
  bytes ← path.1
  update_all blake3 (blake3.update hasher bytes) paths

-- The entries come in the order in which the file system lists them.
unfoldable pub compute_proto_hash : Blake3 → List Entry → Result Bytes
compute_proto_hash blake3 proto_dir =
    update_all blake3 blake3.start (sorted (filter (λ path. is_proto path.0) proto_dir))

unfoldable pub verify_proto_hash : SenderId → Bytes → Bytes → Result (Unit {0})
verify_proto_hash sender_id reported_hash expected_hash =
    raise_if (not (reported_hash == expected_hash)) (proto_hash_mismatch sender_id)
