-- ===== src/Adapters/Blake3.antt =====
-- The package blake3, as far as src/file_monitor/adapters/blake3_hasher.py and
-- src/file_monitor/ipc/handshake.py use it: a hasher that is fed piece by piece.
use file_monitor.Prelude.{◌≡◌, [], ◌++◌, length}
use file_monitor.Python.Text.{Text, Bytes, IsBytes}
use file_monitor.Python.Hex.{hex}

-- `start` is `blake3.blake3()`. The digest depends on the bytes that were fed, and not on how they were
-- cut into pieces.
pub record Blake3 : Type 1 where
  pub Hasher : Type 0
  pub start : Hasher
  pub update : Hasher → Bytes → Hasher
  pub digest : Hasher → Bytes
  pub update-nil : (h : Hasher) → update h [] ≡ h
  pub update-append : (h : Hasher) (a b : Bytes) → update (update h a) b ≡ update h (a ++ b)

-- hasher.hexdigest()
abbrev pub hexdigest : (blake3 : Blake3) → blake3.Hasher → Text
hexdigest blake3 h = hex (blake3.digest h)

-- the digest of these bytes, fed at once
abbrev pub digest_of : Blake3 → Bytes → Bytes
digest_of blake3 bytes = blake3.digest (blake3.update blake3.start bytes)

-- A digest has 32 bytes.
pub record IsBlake3 (blake3 : Blake3) : Type 0 where
  pub length_digest : (h : blake3.Hasher) → length (blake3.digest h) ≡ 32
  pub digest_bytes : (h : blake3.Hasher) → IsBytes (blake3.digest h)
