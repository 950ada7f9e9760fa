-- ===== src/Tests/Planning.antt =====
-- Runs of src/file_monitor/domain/planning.py.
use file_monitor.Prelude.{
  ℕ, ◌*◌, ◌+◌, ◌^◌, ◌≤◌, ◌<◌, ◌≡◌, refl, List, [], ◌∷◌, arith, length, range, pos, negsuc, ok, err,
  empty_active_senders, duplicate_senders, negative_total_blocks, bad_base_port,
}
use mathlib.Core.List.{Perm}
use file_monitor.Python.Sorted.{sorted}
use file_monitor.Python.TrueDivision.{ceil_true_div}
use file_monitor.Domain.Models.{FecParams, block_size, ShardAssignment, BlockPlan}
use file_monitor.Domain.Planning.{
  calculate_block_count, compute_block_plans, blocks_for_shard, derive_shard_assignments,
}
use file_monitor.Domain.Planning.Count.{calculate_block_count-least}
use file_monitor.Domain.Planning.Plans.{Tiles, compute_block_plans-Tiles}
use file_monitor.Domain.Planning.Shards.{IsAccepted, derive_shard_assignments_iff}
use file_monitor.Domain.Planning.Shards.Partition.{all_blocks, derive_shard_assignments-perm}
use file_monitor.Domain.Planning.Shards.Balance.{derive_shard_assignments-balanced}
use mathlib.Core.Logic.{◌↔◌}

-- blocks of 1024 bytes
abbrev pub fec : FecParams
fec = record { k = pos 4; n = pos 6; symbol_bytes = pos 256 }

count_2500 : calculate_block_count (pos 2500) fec ≡ ok (pos 3)
unfolding calculate_block_count block_size ceil_true_div
count_2500 = refl

count_empty : calculate_block_count (pos 0) fec ≡ ok (pos 0)
unfolding calculate_block_count block_size ceil_true_div
count_empty = refl

-- 2 ^ 53 + 1 bytes in blocks of one byte: the quotient is rounded to 2 ^ 53 before it is rounded up.
count_above_2_53 :
    calculate_block_count (pos (2 ^ 53 + 1)) (record { k = pos 1; n = pos 2; symbol_bytes = pos 1 })
    ≡ ok (pos (2 ^ 53))
unfolding calculate_block_count block_size ceil_true_div
count_above_2_53 = refl

no_senders : derive_shard_assignments (pos 5) [] (pos 9000) ≡ err empty_active_senders
unfolding derive_shard_assignments
no_senders = refl

twice :
    derive_shard_assignments (pos 5) (7 ∷ 3 ∷ 7 ∷ 3 ∷ []) (pos 9000)
    ≡ err (duplicate_senders (3 ∷ 7 ∷ []))
unfolding derive_shard_assignments sorted
twice = refl

negative :
    derive_shard_assignments (negsuc 4) (7 ∷ []) (pos 9000) ≡ err (negative_total_blocks (negsuc 4))
unfolding derive_shard_assignments
negative = refl

port_zero : derive_shard_assignments (pos 5) (7 ∷ []) (pos 0) ≡ err (bad_base_port (pos 0))
unfolding derive_shard_assignments
port_zero = refl

abbrev first : ShardAssignment
first = record {
  sender_id = 7;
  shard_modulus = 2;
  shard_residue = 0;
  assigned_blocks = 0 ∷ 2 ∷ 4 ∷ [];
  target_port = pos 9000;
}

abbrev second : ShardAssignment
second = record {
  sender_id = 3;
  shard_modulus = 2;
  shard_residue = 1;
  assigned_blocks = 1 ∷ 3 ∷ [];
  target_port = pos 9001;
}

two_shards : derive_shard_assignments (pos 5) (7 ∷ 3 ∷ []) (pos 9000) ≡ ok (first ∷ second ∷ [])
unfolding derive_shard_assignments blocks_for_shard
two_shards = refl

block_size-fec : block_size fec ≡ pos 1024
unfolding block_size
block_size-fec = refl

calculate_block_count-least_example :
    (c : ℕ) × (calculate_block_count (pos 2500) fec ≡ ok (pos c))
    × (2500 ≤ c * 1024)
    × (c * 1024 < 2500 + 1024)
calculate_block_count-least_example =
    calculate_block_count-least 2500 1024 fec block_size-fec (omega arith) (omega arith)
      (omega arith)

compute_block_plans-Tiles_example :
    (plans : List BlockPlan) × (compute_block_plans (pos 2500) fec ≡ ok plans)
    × Tiles 1024 2500 0 0 plans
compute_block_plans-Tiles_example =
    compute_block_plans-Tiles 2500 1024 fec block_size-fec (omega arith) (omega arith) (omega arith)

derive_shard_assignments_iff_example :
    (derive_shard_assignments (pos 5) (7 ∷ 3 ∷ []) (pos 9000) ≡ ok (first ∷ second ∷ []))
    ↔ IsAccepted (pos 5) (7 ∷ 3 ∷ []) (pos 9000) (first ∷ second ∷ [])
derive_shard_assignments_iff_example =
    derive_shard_assignments_iff (pos 5) (7 ∷ 3 ∷ []) (pos 9000) (first ∷ second ∷ [])

derive_shard_assignments-perm_example : Perm (all_blocks (first ∷ second ∷ [])) (range 5)
derive_shard_assignments-perm_example =
    derive_shard_assignments-perm 5 (7 ∷ 3 ∷ []) (pos 9000) (first ∷ second ∷ []) two_shards

derive_shard_assignments-balanced_example :
    length first.assigned_blocks ≤ length second.assigned_blocks + 1
derive_shard_assignments-balanced_example =
    derive_shard_assignments-balanced 5 (7 ∷ 3 ∷ []) (pos 9000) (first ∷ second ∷ []) 0 1 first
      second two_shards refl refl
