-- ===== src/Adapters/Blake3Hasher/Whole.antt =====
-- src/file_monitor/adapters/blake3_hasher.py: the chunks together are the file.
use file_monitor.Prelude.{
  ℕ, zero, suc, ◌≤◌, ◌<◌, ◌≡◌, refl, ap, ◌∙◌, some, [], ◌∷◌, ◌++◌, arith, length, Result, ok, err,
}
use file_monitor.Python.Text.{Text, Bytes}
use file_monitor.Python.Hex.{hex}
use file_monitor.Adapters.Blake3.{Blake3, hexdigest, digest_of}
use file_monitor.Adapters.Blake3Hasher.{read, hash_chunks, hash_file_sync}

-- what is read and what is left are the file
append-read : (n : ℕ) (rest : Bytes) → (read n rest).0 ++ (read n rest).1 ≡ rest
unfolding read
append-read zero rest = refl
append-read (suc n) [] = refl
append-read (suc n) (b ∷ rest) = ap (λ l. b ∷ l) (append-read n rest)

length-read : (n : ℕ) (rest : Bytes) → length (read n rest).1 ≤ length rest
unfolding read
length-read zero rest = omega arith
length-read (suc n) [] = omega arith
length-read (suc n) (b ∷ rest) = omega (arith, length-read n rest)

hash_chunks_lem :
    (blake3 : Blake3) (size fuel : ℕ) (h : blake3.Hasher) (rest : Bytes)
    → length rest < fuel
    → hash_chunks blake3 (suc size) fuel h rest ≡ some (hexdigest blake3 (blake3.update h rest))
unfolding hash_chunks read
hash_chunks_lem blake3 size zero h rest enough = absurd (omega arith)
hash_chunks_lem blake3 size (suc fuel) h [] enough = rw (blake3.update-nil h) refl
hash_chunks_lem blake3 size (suc fuel) h (b ∷ rest) enough =
    hash_chunks_lem blake3 size fuel (blake3.update h (b ∷ (read size rest).0)) (read size rest).1
      (omega (arith, length-read size rest))
    ∙ ap (λ g. some (hexdigest blake3 g))
        (blake3.update-append h (b ∷ (read size rest).0) (read size rest).1
          ∙ ap (λ l. blake3.update h (b ∷ l)) (append-read size rest))

-- what `_hash_file_sync` is meant to be: the digest of the whole file, in hexadecimal
abbrev pub hash_whole : Blake3 → Result Bytes → Result Text
hash_whole blake3 (err e) = err e
hash_whole blake3 (ok contents) = ok (hex (digest_of blake3 contents))

abbrev pub size_of : Result Bytes → ℕ
size_of (err e) = 0
size_of (ok contents) = length contents

-- With chunks of any size but 0, the loop over a file ends after at most one turn more than the file
-- has bytes, and its hash is the digest of the whole file in hexadecimal, however the file is cut; a file
-- that cannot be read raises its exception.
pub hash_file_sync_lem :
    (blake3 : Blake3) (size fuel : ℕ) (file : Result Bytes)
    → 0 < size
    → size_of file < fuel
    → hash_file_sync blake3 size fuel file ≡ some (hash_whole blake3 file)
unfolding hash_file_sync
hash_file_sync_lem blake3 size fuel (err e) some_size enough = refl
hash_file_sync_lem blake3 zero fuel (ok contents) some_size enough = absurd (omega arith)
hash_file_sync_lem blake3 (suc size) fuel (ok contents) some_size enough =
    rw (hash_chunks_lem blake3 size fuel blake3.start contents enough, hash_file_sync) refl
