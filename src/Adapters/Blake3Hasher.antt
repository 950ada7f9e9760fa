-- ===== src/Adapters/Blake3Hasher.antt =====
-- src/file_monitor/adapters/blake3_hasher.py: the hash of a file, read in chunks.
pub mod Whole
use file_monitor.Prelude.{ℕ, zero, suc, Option, none, some, [], ◌∷◌, Result, ok, err}
use file_monitor.Python.Text.{Text, Bytes}
use file_monitor.Adapters.Blake3.{Blake3, hexdigest}

abbrev pub chunk_size : ℕ
chunk_size = 1048576

-- file_handle.read(n): the next n bytes, or fewer at the end of the file, and what is left of it
unfoldable pub read : ℕ → Bytes → Bytes × Bytes
read zero rest = ([], rest)
read (suc n) [] = ([], [])
read (suc n) (b ∷ rest) = let (chunk, left) = read n rest in (b ∷ chunk, left)

-- The loop. `none` is a loop that has not ended after `fuel` turns.
unfoldable pub hash_chunks :
    (blake3 : Blake3) → (size fuel : ℕ) → blake3.Hasher → Bytes → Option Text
unfolding read
hash_chunks blake3 size zero hasher rest = none
hash_chunks blake3 size (suc fuel) hasher rest =
    let (chunk, left) = read size rest in
    let further = hash_chunks blake3 size fuel (blake3.update hasher chunk) left in
    elim chunk [ [] ↦ some (hexdigest blake3 hasher) | _ ∷ _ ↦ further ]

-- `_hash_file_sync` of a file whose contents are these bytes, or that cannot be read
unfoldable pub hash_file_sync : Blake3 → (size fuel : ℕ) → Result Bytes → Option (Result Text)
unfolding hash_chunks
hash_file_sync blake3 size fuel (err e) = some (err e)
hash_file_sync blake3 size fuel (ok contents) =
    elim (hash_chunks blake3 size fuel blake3.start contents) [
      | none ↦ none
      | some text ↦ some (ok text)
    ]
