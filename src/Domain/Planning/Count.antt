-- ===== src/Domain/Planning/Count.antt =====
-- src/file_monitor/domain/planning.py: calculate_block_count, which divides in floating point.
use file_monitor.Prelude.{ℕ, ◌+◌, ◌*◌, ◌^◌, ◌≤◌, ◌<◌, ◌≡◌, ℤ, pos, ok, err, zero_division}
use file_monitor.Python.TrueDivision.{ceil_div, ceil_div_bounds, ceil_true_div, ceil_true_div-exact}
use file_monitor.Domain.Models.{FecParams, block_size}
use file_monitor.Domain.Planning.{calculate_block_count}

pub calculate_block_count_lem :
    (size b : ℕ) (fec : FecParams)
    → block_size fec ≡ pos b
    → 0 < b
    → b ≤ 2 ^ 1074
    → size < 2 ^ 53
    → calculate_block_count (pos size) fec ≡ ok (pos (ceil_div size b))
unfolding calculate_block_count
calculate_block_count_lem size b fec is_b b_pos fits small =
    rw is_b (ceil_true_div-exact size b small b_pos fits)

-- For a file of less than 2^53 bytes and a positive block size of at most 2^1074 bytes, the count
-- is the least number of blocks that holds the file: that many hold it, one fewer does not.
pub calculate_block_count-least :
    (size b : ℕ) (fec : FecParams)
    → block_size fec ≡ pos b
    → 0 < b
    → b ≤ 2 ^ 1074
    → size < 2 ^ 53
    → (c : ℕ) × (calculate_block_count (pos size) fec ≡ ok (pos c))
      × (size ≤ c * b)
      × (c * b < size + b)
calculate_block_count-least size b fec is_b b_pos fits small =
    let (enough, least) = ceil_div_bounds size b b_pos in
    (ceil_div size b, calculate_block_count_lem size b fec is_b b_pos fits small, enough, least)

calculate_block_count-zero :
    (size : ℤ) (fec : FecParams)
    → block_size fec ≡ pos 0
    → calculate_block_count size fec ≡ err zero_division
unfolding calculate_block_count ceil_true_div
calculate_block_count-zero size fec h = rw h
