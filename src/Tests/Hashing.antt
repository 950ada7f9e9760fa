-- ===== src/Tests/Hashing.antt =====
-- Runs of src/file_monitor/adapters/blake3_hasher.py and src/file_monitor/ipc/handshake.py, with a
-- hasher that keeps the bytes and adds them up.
use mathlib.Core.List.{append-nil, append_assoc, Permᴰ}
use file_monitor.Prelude.{
  ℕ, ◌+◌, ◌%◌, ◌≡◌, refl, some, List, [], ◌∷◌, ◌++◌, arith, ok, err, os_error,
}
use file_monitor.Python.Text.{Bytes, codes}
use file_monitor.Python.Hex.{hex}
use file_monitor.Python.Equality.{list_beq}
use file_monitor.Python.Names.{insert, sorted, text_leb}
use file_monitor.Adapters.Blake3.{Blake3, IsBlake3, digest_of}
use file_monitor.Adapters.Blake3Hasher.{hash_file_sync, hash_chunks, read}
use file_monitor.Adapters.Blake3Hasher.Whole.{hash_whole, hash_file_sync_lem}
use file_monitor.Ipc.Handshake.{Entry, ends_with, compute_proto_hash, update_all}
use file_monitor.Ipc.Handshake.Contract.{File, compute_proto_hash_lem}

abbrev sum : Bytes → ℕ
sum [] = 0
sum (b ∷ bs) = b + sum bs

abbrev pub zeros : Bytes
zeros =
    0 ∷ 0 ∷ 0 ∷ 0 ∷ 0 ∷ 0 ∷ 0 ∷ 0 ∷ 0 ∷ 0 ∷ 0 ∷ 0 ∷ 0 ∷ 0 ∷ 0 ∷ 0 ∷ 0 ∷ 0 ∷ 0 ∷ 0 ∷ 0 ∷ 0 ∷ 0 ∷ 0
    ∷ 0 ∷ 0 ∷ 0 ∷ 0 ∷ 0 ∷ 0 ∷ 0 ∷ []

abbrev pub adder : Blake3
adder = record {
  Hasher = Bytes;
  start = [];
  update = λ h bytes. h ++ bytes;
  digest = λ h. sum h % 256 ∷ zeros;
  update-nil = append-nil;
  update-append = append_assoc;
}

pub adder-IsBlake3 : IsBlake3 adder
adder-IsBlake3 = record { length_digest = λ h. refl; digest_bytes = λ h. ground arith }

-- seven bytes in chunks of three
abbrev pub seven : Bytes
seven = 1 ∷ 2 ∷ 3 ∷ 4 ∷ 5 ∷ 6 ∷ 7 ∷ []

in_chunks : hash_file_sync adder 3 4 (ok seven) ≡ some (ok (hex (28 ∷ zeros)))
unfolding hash_file_sync hash_chunks read
in_chunks = refl

unreadable : hash_file_sync adder 3 4 (err os_error) ≡ some (err os_error)
unfolding hash_file_sync
unreadable = refl

hash_file_sync_lem_example :
    hash_file_sync adder 3 8 (ok seven) ≡ some (hash_whole adder (ok seven))
hash_file_sync_lem_example = hash_file_sync_lem adder 3 8 (ok seven) (omega arith) (omega arith)

abbrev files : List File
files = (codes "a.proto", 1 ∷ 2 ∷ []) ∷ (codes "ipc.proto", 3 ∷ []) ∷ []

abbrev others : List Entry
others = (codes "README", err os_error) ∷ []

-- the file system lists the second file first
abbrev pub listing : List Entry
listing =
    (codes "ipc.proto", ok (3 ∷ []))
    ∷ (codes "a.proto", ok (1 ∷ 2 ∷ []))
    ∷ (codes "README", err os_error)
    ∷ []

compute_proto_hash_lem_example :
    compute_proto_hash adder listing ≡ ok (digest_of adder (1 ∷ 2 ∷ 3 ∷ []))
unfolding ends_with list_beq text_leb
compute_proto_hash_lem_example =
    compute_proto_hash_lem adder files others listing (refl, (refl, tt)) (refl, tt)
      ((refl, tt), (tt, tt)) (Permᴰ.swap refl refl)

missing_file : compute_proto_hash adder ((codes "ipc.proto", err os_error) ∷ listing) ≡ err os_error
unfolding compute_proto_hash update_all ends_with list_beq sorted insert text_leb
missing_file = refl
