-- ===== src/Services/Planner.antt =====
-- src/file_monitor/services/planner.py. The random bytes of `secrets.token_hex` are an argument, and
-- so are the ranges of the fields of the generated message classes.
pub mod Manifest
pub mod Ids
use file_monitor.Prelude.{
  ℕ, ◌≡◌, Bool, true, false, ◌&&◌, not, Option, none, some, List, ◌==◌, length, ℤ, pos, ltb_ℤ,
  leb_ℤ, Result, ok, err, ◌>>=◌, ◌>>◌, raise_if, or_raise, bad_shard_modulus, bad_sender_index,
  negative_size, bad_hash_length, hash_not_hex, path_not_under_root, path_escapes,
  field_out_of_range, Error,
}
use file_monitor.Python.Text.{Text, Bytes}
use file_monitor.Python.Hex.{hex, from_hex}
use file_monitor.Python.Paths.{FilePath, relative_to, has_part, dots, as_posix}
use file_monitor.Domain.Models.{FecParams, SourceFile}
use file_monitor.Domain.Planning.{calculate_block_count}
use file_monitor.Ipc.Messages
use file_monitor.Ipc.Messages.{AssignSession, Ranges}

abbrev pub SessionId : Type 0
SessionId = Text

abbrev pub session_id_random_bytes : ℕ
session_id_random_bytes = 8

abbrev pub unset_sender_bps_limit : ℤ
unset_sender_bps_limit = pos 0

abbrev pub file_hash_hex_length : ℕ
file_hash_hex_length = 64

-- secrets.token_hex of `session_id_random_bytes` random bytes, which are the argument
unfoldable pub generate_session_id : Bytes → SessionId
generate_session_id random_bytes = hex random_bytes

-- The assignment of `sender_id`, which raises if the field cannot hold it.
unfoldable pub apply_shard : Ranges → Messages.Manifest → ℤ → ℤ → Result Messages.Manifest
apply_shard ranges manifest sender_index shard_modulus = do
  raise_if (ltb_ℤ shard_modulus (pos 1)) bad_shard_modulus
  raise_if (not (leb_ℤ (pos 0) sender_index && ltb_ℤ sender_index shard_modulus)) bad_sender_index
  let sharded = record manifest { sender_id = sender_index }
  raise_if (not (ranges.manifest_fits sharded)) field_out_of_range
  ok sharded

-- A field that is not set holds 0: `sender_id`, until `apply_shard`.
unfoldable pub build_manifest :
    Ranges
    → SourceFile
    → FecParams
    → SessionId
    → (sender_index shard_modulus : ℤ) → (watch_root : FilePath) → (sender_bps_limit : ℤ)
    → Result Messages.Manifest
build_manifest ranges source_file fec_params session_id sender_index shard_modulus watch_root
      sender_bps_limit =
    do
      raise_if (ltb_ℤ source_file.size_bytes (pos 0)) negative_size
      raise_if (not (length source_file.file_hash == file_hash_hex_length)) bad_hash_length
      file_hash_bytes ← or_raise (from_hex source_file.file_hash) hash_not_hex
      relative_path ← or_raise (relative_to source_file.path watch_root) path_not_under_root
      raise_if (has_part dots relative_path.parts) path_escapes
      total_blocks ← calculate_block_count source_file.size_bytes fec_params
      let manifest : Messages.Manifest = record {
        session_id = session_id;
        filepath = as_posix relative_path;
        file_size = source_file.size_bytes;
        file_hash = file_hash_bytes;
        k = fec_params.k;
        n = fec_params.n;
        block_bytes = fec_params.symbol_bytes;
        total_blocks = total_blocks;
        sender_bps_limit = sender_bps_limit;
        sender_id = pos 0;
      }
      raise_if (not (ranges.manifest_fits manifest)) field_out_of_range
      apply_shard ranges manifest sender_index shard_modulus

unfoldable pub build_assign_session :
    Ranges → Messages.Manifest → ℤ → Text → ℤ → Text → Result AssignSession
build_assign_session ranges manifest shard_modulus target_host target_port source_path = do
  let assign_session : AssignSession = record {
    manifest = manifest;
    total_senders = shard_modulus;
    target_host = target_host;
    target_port = target_port;
    source_path = source_path;
  }
  raise_if (not (ranges.assign_session_fits assign_session)) field_out_of_range
  ok assign_session
