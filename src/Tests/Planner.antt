-- ===== src/Tests/Planner.antt =====
-- Runs of src/file_monitor/services/planner.py and of ipc/codec.py.
use file_monitor.Prelude.{
  ℕ, zero, suc, ◌≡◌, refl, List, [], ◌∷◌, pos, ok, err, true, path_not_under_root, path_escapes,
  bad_sender_index,
}
use file_monitor.Python.Text.{Bytes, codes}
use file_monitor.Python.Hex.{hex, from_hex}
use file_monitor.Python.Paths.{FilePath, parse, as_posix, relative_to}
use file_monitor.Python.TrueDivision.{ceil_true_div}
use file_monitor.Python.Equality.{list_beq}
use file_monitor.Domain.Models.{SourceFile, block_size}
use file_monitor.Domain.Planning.{calculate_block_count}
use file_monitor.Ipc.Messages
use file_monitor.Ipc.Messages.{Ranges}
use file_monitor.Services.Planner.{build_manifest, apply_shard, generate_session_id}
use file_monitor.Services.Planner.Manifest.{IsManifest, build_manifest-IsManifest}
use file_monitor.Tests.Planning.{fec}

abbrev copies : ℕ → ℕ → List ℕ
copies zero x = []
copies (suc n) x = x ∷ copies n x

-- a digest of 32 bytes
abbrev pub digest : Bytes
digest = copies 32 171

abbrev pub any : Ranges
any = record { manifest_fits = λ m. true; assign_session_fits = λ m. true }

-- "/data"
abbrev pub watch_root : FilePath
watch_root = record { root = codes "/"; parts = codes "data" ∷ [] }

-- "in/a"
abbrev pub relative : FilePath
relative = record { root = []; parts = codes "in" ∷ codes "a" ∷ [] }

abbrev pub file : SourceFile
file = record {
  path = record { root = codes "/"; parts = codes "data" ∷ codes "in" ∷ codes "a" ∷ [] };
  size_bytes = pos 2500;
  file_hash = hex digest;
}

abbrev manifest : Messages.Manifest
manifest = record {
  session_id = codes "s";
  filepath = codes "in/a";
  file_size = pos 2500;
  file_hash = digest;
  k = pos 4;
  n = pos 6;
  block_bytes = pos 256;
  total_blocks = pos 3;
  sender_bps_limit = pos 0;
  sender_id = pos 1;
}

built : build_manifest any file fec (codes "s") (pos 1) (pos 2) watch_root (pos 0) ≡ ok manifest
unfolding build_manifest apply_shard calculate_block_count block_size ceil_true_div hex relative_to
    as_posix list_beq from_hex
built = refl

outside :
    build_manifest any
      (record file { path = parse (codes "/etc/passwd") })
      fec
      (codes "s")
      (pos 1)
      (pos 2)
      watch_root
      (pos 0)
    ≡ err path_not_under_root
unfolding build_manifest hex relative_to parse list_beq from_hex
outside = refl

escaping :
    build_manifest any
      (record file { path = parse (codes "/data/../etc") })
      fec
      (codes "s")
      (pos 1)
      (pos 2)
      watch_root
      (pos 0)
    ≡ err path_escapes
unfolding build_manifest hex relative_to parse list_beq from_hex
escaping = refl

index_at_modulus :
    build_manifest any file fec (codes "s") (pos 2) (pos 2) watch_root (pos 0)
    ≡ err bad_sender_index
unfolding build_manifest apply_shard calculate_block_count block_size ceil_true_div hex relative_to
    as_posix list_beq from_hex
index_at_modulus = refl

build_manifest-IsManifest_example :
    IsManifest file fec (codes "s") (pos 1) (pos 2) watch_root (pos 0) manifest
build_manifest-IsManifest_example =
    build_manifest-IsManifest any file fec (codes "s") (pos 1) (pos 2) watch_root (pos 0) manifest
      built

abbrev random_bytes : Bytes
random_bytes = 0 ∷ 1 ∷ 15 ∷ 16 ∷ 160 ∷ 171 ∷ 254 ∷ 255 ∷ []

session_id : generate_session_id random_bytes ≡ codes "00010f10a0abfeff"
unfolding generate_session_id hex
session_id = refl
