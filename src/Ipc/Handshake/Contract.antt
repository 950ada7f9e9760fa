-- ===== src/Ipc/Handshake/Contract.antt =====
-- src/file_monitor/ipc/handshake.py: the hash of the contract is that of its files, one after the other
-- in the order of their names.
use mathlib.Core.Path.{ap₂}
use mathlib.Core.List.{Permᴰ, append-nil}
use file_monitor.Prelude.{
  ◌≡◌, refl, sym, subst, ap, ◌∙◌, true, false, List, [], ◌∷◌, ◌++◌, map, filter, filter-append, All,
  Permᴰ-filter, ok,
}
use file_monitor.Python.Text.{Text, Bytes}
use file_monitor.Python.Names.{text_leb}
use file_monitor.Python.Names.Order.{
  sorted-perm, IsIncreasing, sorted-IsIncreasing, IsIncreasing-AreDistinct,
}
use file_monitor.Adapters.Blake3.{Blake3, digest_of}
use file_monitor.Ipc.Handshake.{Entry, is_proto, update_all, compute_proto_hash}

-- a file of the contract, with its contents
abbrev pub File : Type 0
File = Text × Bytes

abbrev pub readable : File → Entry
readable (name, bytes) = (name, ok bytes)

abbrev pub contents : List File → Bytes
contents [] = []
contents (file ∷ files) = file.1 ++ contents files

update_all_lem :
    (blake3 : Blake3) (h : blake3.Hasher) (files : List File)
    → update_all blake3 h (map readable files)
      ≡ ok (blake3.digest (blake3.update h (contents files)))
unfolding update_all
update_all_lem blake3 h [] = rw (blake3.update-nil h) refl
update_all_lem blake3 h (file ∷ files) =
    update_all_lem blake3 (blake3.update h file.1) files
    ∙ ap (λ g. ok (blake3.digest g)) (blake3.update-append h file.1 (contents files))

-- Reading keeps the names, so it keeps their order.
least-readable :
    (n : Text) (files : List File)
    → All (λ f. text_leb f.0 n ≡ false) files
    → All (λ f. text_leb f.0 n ≡ false) (map readable files)
least-readable n [] least = tt
least-readable n (file ∷ files) least = (least.0, least-readable n files least.1)

readable-IsIncreasing : (files : List File) → IsIncreasing files → IsIncreasing (map readable files)
readable-IsIncreasing [] up = tt
readable-IsIncreasing (file ∷ files) up =
    (least-readable file.0 files up.0, readable-IsIncreasing files up.1)

keeps_files :
    (files : List File)
    → All (λ f. is_proto f.0 ≡ true) files
    → filter (λ path. is_proto path.0) (map readable files) ≡ map readable files
keeps_files [] protos = refl
keeps_files (file ∷ files) protos = rw (protos.0, keeps_files files protos.1) refl

drops_others :
    (others : List Entry)
    → All (λ e. is_proto e.0 ≡ false) others
    → filter (λ path. is_proto path.0) others ≡ []
drops_others [] rest = refl
drops_others (other ∷ others) rest = rw rest.0 (drops_others others rest.1)

keeps_contract :
    (files : List File) (others : List Entry)
    → All (λ f. is_proto f.0 ≡ true) files
    → All (λ e. is_proto e.0 ≡ false) others
    → filter (λ path. is_proto path.0) (map readable files ++ others) ≡ map readable files
keeps_contract files others protos rest =
    filter-append (λ path. is_proto path.0) (map readable files) others
    ∙ ap₂ (λ a b. a ++ b) (keeps_files files protos) (drops_others others rest)
    ∙ append-nil (map readable files)

-- The hash of a directory is the digest of its `.proto` files, one after the other in the order of their
-- names, if these can be read: other entries play no part, nor does the order in which the file system
-- lists the directory.
pub compute_proto_hash_lem :
    (blake3 : Blake3) (files : List File) (others proto_dir : List Entry)
    → All (λ f. is_proto f.0 ≡ true) files
    → All (λ e. is_proto e.0 ≡ false) others
    → IsIncreasing files
    → Permᴰ (map readable files ++ others) proto_dir
    → compute_proto_hash blake3 proto_dir ≡ ok (digest_of blake3 (contents files))
unfolding compute_proto_hash
compute_proto_hash_lem blake3 files others proto_dir protos rest up listed =
    let up' = readable-IsIncreasing files up in
    let found : Permᴰ (map readable files) (filter (λ path. is_proto path.0) proto_dir) =
      subst (λ l. Permᴰ l (filter (λ path. is_proto path.0) proto_dir))
        (keeps_contract files others protos rest) (Permᴰ-filter (λ path. is_proto path.0) listed) in
    let in_order =
      sym (sorted-perm found (IsIncreasing-AreDistinct (map readable files) up'))
      ∙ sorted-IsIncreasing (map readable files) up' in
    ap (update_all blake3 blake3.start) in_order ∙ update_all_lem blake3 blake3.start files
