-- ===== src/Domain/Models.antt =====
-- src/file_monitor/domain/ids.py and models.py. Integers are Python's. A sender id comes from an
-- unsigned field of the wire format and a block id from `range`, so both are natural numbers.
use file_monitor.Prelude.{ℕ, ℤ, ◌*ℤ◌, List}
use file_monitor.Python.Text.{Text}
use file_monitor.Python.Paths.{FilePath}

abbrev pub SenderId : Type 0
SenderId = ℕ

abbrev pub BlockId : Type 0
BlockId = ℕ

pub record SourceFile : Type 0 where
  pub path : FilePath
  pub size_bytes : ℤ
  pub file_hash : Text

pub record FecParams : Type 0 where
  pub k : ℤ
  pub n : ℤ
  pub symbol_bytes : ℤ

unfoldable pub block_size : FecParams → ℤ
block_size fec = fec.k *ℤ fec.symbol_bytes

pub record BlockPlan : Type 0 where
  pub block_id : BlockId
  pub start_byte : ℤ
  pub end_byte : ℤ

pub record ShardAssignment : Type 0 where
  pub sender_id : SenderId
  pub shard_modulus : ℕ
  pub shard_residue : ℕ
  pub assigned_blocks : List BlockId
  pub target_port : ℤ
