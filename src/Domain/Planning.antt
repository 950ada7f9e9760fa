-- ===== src/Domain/Planning.antt =====
-- src/file_monitor/domain/planning.py
pub mod Count
pub mod Plans
pub mod Duplicates
pub mod Shards
use file_monitor.Prelude.{
  ℕ, zero, suc, ◌+◌, ◌-◌, ◌≡◌, Bool, true, false, ◌&&◌, ◌||◌, not, List, [], ◌∷◌, ◌++◌, map, ltb,
  ◌==◌, if◌then◌else◌, length, filter, null, range, ℤ, pos, negsuc, pos_part, ◌+ℤ◌, ◌*ℤ◌, ltb_ℤ,
  leb_ℤ, eqb_ℤ, min_ℤ, mod_ℤ, Result, ok, err, ◌>>=◌, ◌>>◌, raise_if, zero_division,
  empty_active_senders, duplicate_senders, negative_total_blocks, bad_base_port,
}
use file_monitor.Python.TrueDivision.{ceil_true_div}
use file_monitor.Python.Sets.{elem, add}
use file_monitor.Python.Sorted.{sorted}
use file_monitor.Domain.Models.{
  SenderId, BlockId, FecParams, block_size, BlockPlan, ShardAssignment,
}

unfoldable pub calculate_block_count : ℤ → FecParams → Result ℤ
calculate_block_count file_size fec_params = ceil_true_div file_size (block_size fec_params)

-- the body of the loop of `compute_block_plans`
block_plan : ℤ → ℤ → ℕ → BlockPlan
block_plan file_size size i =
    let start_byte = pos i *ℤ size in
    record {
      block_id = i;
      start_byte = start_byte;
      end_byte = min_ℤ (start_byte +ℤ size) file_size;
    }

-- `range` of a negative number is empty: its `pos_part` is 0.
unfoldable pub compute_block_plans : ℤ → FecParams → Result (List BlockPlan)
unfolding block_plan
compute_block_plans file_size fec_params = do
  block_count ← calculate_block_count file_size fec_params
  ok (map (block_plan file_size (block_size fec_params)) (range (pos_part block_count)))

-- `block_id % 0` raises, if the range has an element at all.
unfoldable pub blocks_for_shard : ℤ → ℤ → ℤ → Result (List BlockId)
blocks_for_shard total_blocks modulus residue = do
  raise_if (ltb_ℤ (pos 0) total_blocks && eqb_ℤ modulus (pos 0)) zero_division
  ok (filter (λ block_id. eqb_ℤ (mod_ℤ block_id modulus) residue) (range (pos_part total_blocks)))

-- The first loop of `derive_shard_assignments`, from the sets `seen` and `duplicate_sender_ids`.
pub find_duplicates : List SenderId → List SenderId → List SenderId → List SenderId
find_duplicates seen duplicates [] = duplicates
find_duplicates seen duplicates (sender_id ∷ rest) =
    find_duplicates (add sender_id seen)
      (if elem sender_id seen then add sender_id duplicates else duplicates) rest

-- The comprehension over `enumerate(active_senders)`, from the index `shard_residue`.
assignments_from : ℤ → ℤ → ℕ → ℕ → List SenderId → Result (List ShardAssignment)
assignments_from total_blocks base_port shard_modulus shard_residue [] = ok []
assignments_from total_blocks base_port shard_modulus shard_residue (sender_id ∷ rest) = do
  assigned_blocks ← blocks_for_shard total_blocks (pos shard_modulus) (pos shard_residue)
  others ← assignments_from total_blocks base_port shard_modulus (suc shard_residue) rest
  ok (
      record {
        sender_id = sender_id;
        shard_modulus = shard_modulus;
        shard_residue = shard_residue;
        assigned_blocks = assigned_blocks;
        target_port = base_port +ℤ pos shard_residue;
      }
      ∷ others)

unfoldable pub derive_shard_assignments : ℤ → List SenderId → ℤ → Result (List ShardAssignment)
unfolding find_duplicates assignments_from
derive_shard_assignments total_blocks active_senders base_port = do
  raise_if (null active_senders) empty_active_senders
  let duplicate_sender_ids = find_duplicates [] [] active_senders
  raise_if (not (null duplicate_sender_ids)) (duplicate_senders (sorted duplicate_sender_ids))
  raise_if (ltb_ℤ total_blocks (pos 0)) (negative_total_blocks total_blocks)
  raise_if (leb_ℤ base_port (pos 0)) (bad_base_port base_port)
  assignments_from total_blocks base_port (length active_senders) 0 active_senders
