-- ===== src/Domain/Planning/Shards/Partition.antt =====
-- src/file_monitor/domain/planning.py: the shards of one dispatch share the blocks out.
use mathlib.Core.List.Perm
use mathlib.Core.List.{Perm}
use native.Mathlib.Nat.{mod-lt}
use file_monitor.Prelude.{
  ℕ, suc, ◌+◌, ◌%◌, ◌<◌, ◌≡◌, ◌≢◌, refl, sym, ◌∙◌, subst, Bool, true, ◌&&◌, List, [], ◌∷◌, ◌++◌,
  arith, ltb, leb, ◌==◌, length, length-append, length-range_from, length-perm, filter,
  filter-perm-append, filter-all, filter-none, range, ℤ, pos, ok,
}
use file_monitor.Domain.Models.{SenderId, BlockId, ShardAssignment}
use file_monitor.Domain.Planning.{derive_shard_assignments}
use file_monitor.Domain.Planning.Shards.{shards, derive_shard_assignments-eq-ok}

-- The blocks of all assignments, one assignment after the other.
abbrev pub all_blocks : List ShardAssignment → List BlockId
all_blocks [] = []
all_blocks (a ∷ as') = a.assigned_blocks ++ all_blocks as'

-- the sum in `_log_partial_failure`: sum(len(assignment.assigned_blocks) for …)
abbrev pub block_total : List ShardAssignment → ℕ
block_total [] = 0
block_total (a ∷ as') = length a.assigned_blocks + block_total as'

pub length-all_blocks : (as' : List ShardAssignment) → length (all_blocks as') ≡ block_total as'
length-all_blocks [] = refl
length-all_blocks (a ∷ as') =
    omega (arith, length-append a.assigned_blocks (all_blocks as'), length-all_blocks as')

abbrev between : ℕ → ℕ → ℕ → ℕ → Bool
between m lo count b = leb lo (b % m) && ltb (b % m) (lo + count)

all_blocks-shards :
    (total : ℕ) (base : ℤ) (m r : ℕ) (senders : List SenderId)
    → Perm
        (all_blocks (shards total base m r senders))
        (filter (between m r (length senders)) (range total))
all_blocks-shards total base m r [] =
    rw (filter-none (between m r 0) (range total) (λ b. ground arith)) (Perm.refl _)
all_blocks-shards total base m r (s ∷ rest) =
    Perm.trans (Perm.append_left _ (all_blocks-shards total base m (suc r) rest)) (
      filter-perm-append (λ b. b % m == r) (between m (suc r) (length rest))
        (between m r (suc (length rest))) (range total) (λ b. ground arith) (λ b h. ground arith))

in_range : (m b : ℕ) → 0 < m → between m 0 m b ≡ true
in_range m b h = ground (arith, mod-lt b h)

length-pos : (senders : List SenderId) → senders ≢ [] → 0 < length senders
length-pos [] h = absurd (h refl)
length-pos (s ∷ rest) h = omega arith

-- Whatever list of senders is accepted, each block of the file is assigned to exactly one of them:
-- the blocks of all assignments together are a permutation of 0, …, total - 1.
pub derive_shard_assignments-perm :
    (total : ℕ) (senders : List SenderId) (base_port : ℤ) (assignments : List ShardAssignment)
    → derive_shard_assignments (pos total) senders base_port ≡ ok assignments
    → Perm (all_blocks assignments) (range total)
derive_shard_assignments-perm total senders base_port assignments e =
    let (ne, is_shards) = derive_shard_assignments-eq-ok total senders base_port assignments e in
    rw is_shards (
      subst (λ l. Perm (all_blocks (shards total base_port (length senders) 0 senders)) l)
        (filter-all _ (range total) (λ b. in_range (length senders) b (length-pos senders ne)))
        (all_blocks-shards total base_port (length senders) 0 senders))

-- No block is counted twice and none is missed by the block counts of the assignments.
pub derive_shard_assignments-block_total :
    (total : ℕ) (senders : List SenderId) (base_port : ℤ) (assignments : List ShardAssignment)
    → derive_shard_assignments (pos total) senders base_port ≡ ok assignments
    → block_total assignments ≡ total
derive_shard_assignments-block_total total senders base_port assignments e =
    sym (length-all_blocks assignments)
    ∙ length-perm (derive_shard_assignments-perm total senders base_port assignments e)
    ∙ length-range_from 0 total
