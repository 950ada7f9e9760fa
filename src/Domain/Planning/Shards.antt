-- ===== src/Domain/Planning/Shards.antt =====
-- src/file_monitor/domain/planning.py: what derive_shard_assignments accepts and returns.
pub mod Partition
pub mod Balance
use file_monitor.Prelude.{
  ℕ, zero, suc, ◌+◌, ◌%◌, ◌<◌, ◌≡◌, ◌≢◌, ◌↔◌, refl, ap, fun_ext, true, false, List, [], ◌∷◌, arith,
  ltb, ◌==◌, null, length, filter, range, Bool-cases, inl, inr, ℤ, pos, negsuc, ◌+ℤ◌, Result, ok,
  err, >>=-eq-ok,
}
use file_monitor.Domain.Models.{SenderId, BlockId, ShardAssignment}
use file_monitor.Domain.Planning.{
  blocks_for_shard, find_duplicates, assignments_from, derive_shard_assignments,
}
use file_monitor.Python.Sets.{IsDistinct}
use file_monitor.Domain.Planning.Duplicates.{find_duplicates-nil, find_duplicates-nil-IsDistinct}

-- The blocks below `total` with remainder `residue`.
abbrev pub residue_class : ℕ → ℕ → ℕ → List BlockId
residue_class total modulus residue = filter (λ b. b % modulus == residue) (range total)

abbrev pub shard : ℕ → ℤ → ℕ → ℕ → SenderId → ShardAssignment
shard total base_port modulus residue sender_id = record {
  sender_id = sender_id;
  shard_modulus = modulus;
  shard_residue = residue;
  assigned_blocks = residue_class total modulus residue;
  target_port = base_port +ℤ pos residue;
}

-- One shard for each sender, the residues counting up from `residue`.
abbrev pub shards : ℕ → ℤ → ℕ → ℕ → List SenderId → List ShardAssignment
shards total base_port modulus residue [] = []
shards total base_port modulus residue (sender_id ∷ rest) =
    shard total base_port modulus residue sender_id
    ∷ shards total base_port modulus (suc residue) rest

pub blocks_for_shard_lem :
    (total m residue : ℕ)
    → blocks_for_shard (pos total) (pos (suc m)) (pos residue)
      ≡ ok (residue_class total (suc m) residue)
unfolding blocks_for_shard
blocks_for_shard_lem total m residue = ground arith

assignments_from_lem :
    (total : ℕ) (base_port : ℤ) (m residue : ℕ) (senders : List SenderId)
    → assignments_from (pos total) base_port (suc m) residue senders
      ≡ ok (shards total base_port (suc m) residue senders)
unfolding assignments_from
assignments_from_lem total base_port m residue [] = refl
assignments_from_lem total base_port m residue (s ∷ rest) =
    rw (blocks_for_shard_lem, assignments_from_lem total base_port m (suc residue) rest)

-- The inputs that are accepted, with what is returned for them.
pub record IsAccepted (total_blocks : ℤ) (senders : List SenderId) (base_port : ℤ)
    (assignments : List ShardAssignment) : Type 0 where
  pub some_sender : senders ≢ []
  pub distinct : IsDistinct senders
  pub total : ℕ
  pub is_total : total_blocks ≡ pos total
  pub port : ℕ
  pub is_port : base_port ≡ pos (suc port)
  pub is_shards : assignments ≡ shards total base_port (length senders) 0 senders

accept :
    (total port : ℕ) (senders : List SenderId)
    → senders ≢ []
    → IsDistinct senders
    → derive_shard_assignments (pos total) senders (pos (suc port))
      ≡ ok (shards total (pos (suc port)) (length senders) 0 senders)
unfolding derive_shard_assignments
accept total port [] ne d = absurd (ne refl)
accept total port (s ∷ rest) ne d =
    rw (find_duplicates-nil (s ∷ rest) d)
      (ground (arith, assignments_from_lem total (pos (suc port)) (length rest) 0 (s ∷ rest)))

no_duplicates :
    (total_blocks : ℤ) (senders : List SenderId) (base_port : ℤ)
    {assignments : List ShardAssignment}
    → derive_shard_assignments total_blocks senders base_port ≡ ok assignments
    → find_duplicates [] [] senders ≡ []
unfolding derive_shard_assignments
no_duplicates total_blocks senders base_port e = ground arith

inspect :
    (total_blocks : ℤ) (senders : List SenderId) (base_port : ℤ)
    (assignments : List ShardAssignment)
    → derive_shard_assignments total_blocks senders base_port ≡ ok assignments
    → IsAccepted total_blocks senders base_port assignments
unfolding derive_shard_assignments
inspect total_blocks [] base_port assignments e = absurd (cc)
inspect (negsuc t) (s ∷ rest) base_port assignments e = absurd (ground arith)
inspect (pos t) (s ∷ rest) (negsuc p) assignments e = absurd (ground arith)
inspect (pos t) (s ∷ rest) (pos zero) assignments e = absurd (ground arith)
inspect (pos t) (s ∷ rest) (pos (suc p)) assignments e = record {
  some_sender = λ h. cc;
  distinct =
      find_duplicates-nil-IsDistinct (s ∷ rest) (no_duplicates (pos t) (s ∷ rest) (pos (suc p)) e);
  total = t;
  is_total = refl;
  port = p;
  is_port = refl;
  is_shards = ground (arith, assignments_from_lem t (pos (suc p)) (length rest) 0 (s ∷ rest));
}

-- Assignments are returned exactly when there is a sender, no sender is listed twice, the number of
-- blocks is not negative and the base port is positive; they are then one shard for each sender in
-- the given order, with the number of senders as modulus, the position as residue, the blocks of
-- that residue class, and the base port plus the position as port.
pub derive_shard_assignments_iff :
    (total_blocks : ℤ) (senders : List SenderId) (base_port : ℤ)
    (assignments : List ShardAssignment)
    → (derive_shard_assignments total_blocks senders base_port ≡ ok assignments)
      ↔ IsAccepted total_blocks senders base_port assignments
derive_shard_assignments_iff total_blocks senders base_port assignments = (
  inspect total_blocks senders base_port assignments,
  λ a.
      rw (a.is_shards, a.is_total, a.is_port)
        (accept a.total a.port senders a.some_sender a.distinct),
)

pub derive_shard_assignments-eq-ok :
    (total : ℕ) (senders : List SenderId) (base_port : ℤ) (assignments : List ShardAssignment)
    → derive_shard_assignments (pos total) senders base_port ≡ ok assignments
    → (senders ≢ []) × (assignments ≡ shards total base_port (length senders) 0 senders)
derive_shard_assignments-eq-ok total senders base_port assignments e =
    let a = inspect (pos total) senders base_port assignments e in
    let same : a.total ≡ total = cc (a.is_total) in (a.some_sender, rw same at a.is_shards)
