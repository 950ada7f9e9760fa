-- ===== src/Services/Planner/Manifest.antt =====
-- src/file_monitor/services/planner.py: what a manifest says, and when one is built.
use file_monitor.Prelude.{ℕ, ◌<◌, ◌≡◌, refl, true, false, some, arith, length, ℤ, pos, Result, ok}
use file_monitor.Python.Text.{Bytes, IsBytes}
use file_monitor.Python.Hex.{hex, from_hex, from_hex-hex, length-hex}
use file_monitor.Python.Paths.{FilePath, is_absolute, join, relative_to, has_part, dots, as_posix}
use file_monitor.Python.Paths.Relative.{relative_to-eq-some, relative_to-join}
use file_monitor.Domain.Models.{FecParams, SourceFile}
use file_monitor.Domain.Planning.{calculate_block_count}
use file_monitor.Ipc.Messages
use file_monitor.Ipc.Messages.{Ranges}
use file_monitor.Services.Planner.{SessionId, apply_shard, build_manifest}

module _ (source_file : SourceFile) (fec : FecParams) (session_id : SessionId)
    (sender_index shard_modulus : ℤ) (watch_root : FilePath) (limit : ℤ) where
  -- What a manifest says of the file, its encoding and its shard.
  pub record IsManifest (m : Messages.Manifest) : Type 0 where
    pub size : ℕ
    pub is_size : source_file.size_bytes ≡ pos size
    pub file_size : m.file_size ≡ pos size
    pub hash : from_hex source_file.file_hash ≡ some m.file_hash
    pub relative : FilePath
    pub filepath : m.filepath ≡ as_posix relative
    pub not_absolute : is_absolute relative ≡ false
    pub no_dots : has_part dots relative.parts ≡ false
    pub below_root : join watch_root relative ≡ source_file.path
    pub blocks : calculate_block_count source_file.size_bytes fec ≡ ok m.total_blocks
    pub k : m.k ≡ fec.k
    pub n : m.n ≡ fec.n
    pub symbol_bytes : m.block_bytes ≡ fec.symbol_bytes
    pub session : m.session_id ≡ session_id
    pub bps_limit : m.sender_bps_limit ≡ limit
    pub index : ℕ
    pub modulus : ℕ
    pub is_index : sender_index ≡ pos index
    pub is_modulus : shard_modulus ≡ pos modulus
    pub index_lt : index < modulus
    pub sender_id : m.sender_id ≡ pos index

  abbrev build : Ranges → Result Messages.Manifest
  build ranges =
      build_manifest ranges source_file fec session_id sender_index shard_modulus watch_root limit

  module _ (ranges : Ranges) {m : Messages.Manifest} (built : build ranges ≡ ok m) where
    built-size : (size : ℕ) × (source_file.size_bytes ≡ pos size) × (m.file_size ≡ pos size)
    unfolding build_manifest apply_shard
    built-size = ground arith

    built-hash : from_hex source_file.file_hash ≡ some m.file_hash
    unfolding build_manifest apply_shard
    built-hash = ground arith

    built-path :
        (r : FilePath) × (relative_to source_file.path watch_root ≡ some r)
        × (m.filepath ≡ as_posix r)
        × (has_part dots r.parts ≡ false)
    unfolding build_manifest apply_shard
    built-path = ground arith

    built-fields :
        (calculate_block_count source_file.size_bytes fec ≡ ok m.total_blocks)
        × (m.k ≡ fec.k)
        × (m.n ≡ fec.n)
        × (m.block_bytes ≡ fec.symbol_bytes)
        × (m.session_id ≡ session_id)
        × (m.sender_bps_limit ≡ limit)
    unfolding build_manifest apply_shard
    built-fields = ground arith

    built-shard :
        (index : ℕ) × (modulus : ℕ) × (sender_index ≡ pos index)
        × (shard_modulus ≡ pos modulus)
        × (index < modulus)
        × (m.sender_id ≡ pos index)
    unfolding build_manifest apply_shard
    built-shard = ground arith

-- A manifest that is built says of the file what is so: its size, the bytes that its hash spells, the
-- number of its blocks, and the position of the sender below the number of senders. Its path is
-- relative, holds no "..", and leads from the watched directory to the file.
pub build_manifest-IsManifest :
    (ranges : Ranges) (source_file : SourceFile) (fec : FecParams) (session_id : SessionId)
    → (sender_index shard_modulus : ℤ) (watch_root : FilePath) (limit : ℤ) (m : Messages.Manifest)
    → build_manifest ranges source_file fec session_id sender_index shard_modulus watch_root limit
      ≡ ok m
    → IsManifest source_file fec session_id sender_index shard_modulus watch_root limit m
build_manifest-IsManifest ranges file fec session_id sender_index shard_modulus root limit m e =
    let (size, is_size, file_size) =
      built-size file fec session_id sender_index shard_modulus root limit ranges e in
    let (relative, under, filepath, no_dots) =
      built-path file fec session_id sender_index shard_modulus root limit ranges e in
    let (blocks, k, n, symbol_bytes, session, bps_limit) =
      built-fields file fec session_id sender_index shard_modulus root limit ranges e in
    let (index, modulus, is_index, is_modulus, index_lt, sender_id) =
      built-shard file fec session_id sender_index shard_modulus root limit ranges e in
    let (not_absolute, below_root) = relative_to-eq-some file.path root relative under in
    record {
      size = size;
      is_size = is_size;
      file_size = file_size;
      hash = built-hash file fec session_id sender_index shard_modulus root limit ranges e;
      relative = relative;
      filepath = filepath;
      not_absolute = not_absolute;
      no_dots = no_dots;
      below_root = below_root;
      blocks = blocks;
      k = k;
      n = n;
      symbol_bytes = symbol_bytes;
      session = session;
      bps_limit = bps_limit;
      index = index;
      modulus = modulus;
      is_index = is_index;
      is_modulus = is_modulus;
      index_lt = index_lt;
      sender_id = sender_id;
    }

pub build_manifest-total :
    (ranges : Ranges) (fec : FecParams) (session_id : SessionId) (watch_root : FilePath) (limit : ℤ)
    → (relative : FilePath) (size index modulus : ℕ) (digest : Bytes) (total : ℤ)
    → is_absolute relative ≡ false
    → has_part dots relative.parts ≡ false
    → length digest ≡ 32
    → IsBytes digest
    → index < modulus
    → calculate_block_count (pos size) fec ≡ ok total
    → ((m : Messages.Manifest) → ranges.manifest_fits m ≡ true)
    → (m : Messages.Manifest) × (build_manifest ranges
          (record {
            path = join watch_root relative;
            size_bytes = pos size;
            file_hash = hex digest;
          })
          fec
          session_id
          (pos index)
          (pos modulus)
          watch_root
          limit
        ≡ ok m)
      × (m.file_hash ≡ digest)
      × (m.filepath ≡ as_posix relative)
unfolding build_manifest apply_shard
build_manifest-total ranges fec session_id root limit relative size index modulus digest total rel
      dots_ok len is_bytes lt counted fits =
    let m : Messages.Manifest = record {
      session_id = session_id;
      filepath = as_posix relative;
      file_size = pos size;
      file_hash = digest;
      k = fec.k;
      n = fec.n;
      block_bytes = fec.symbol_bytes;
      total_blocks = total;
      sender_bps_limit = limit;
      sender_id = pos index;
    } in
    (
      m,
      ground (
        arith,
        from_hex-hex digest is_bytes,
        length-hex digest,
        relative_to-join root relative rel,
        fits (record m { sender_id = pos 0 }),
        fits m,
      ),
      refl,
      refl,
    )
