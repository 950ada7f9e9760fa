-- ===== src/Domain/Planning/Plans.antt =====
-- src/file_monitor/domain/planning.py: compute_block_plans lays the blocks end to end over the file.
use Prim.Native.Nat.{min}
use file_monitor.Prelude.{
  ℕ, zero, suc, ◌+◌, ◌*◌, ◌^◌, ◌≤◌, ◌<◌, ◌≡◌, refl, ap, subst, false, List, [], ◌∷◌, map, null,
  range, range_from, pos, min_ℤ, pos-mul, pos-add, ok, arith,
}
use file_monitor.Python.TrueDivision.{ceil_div, ceil_div_bounds}
use file_monitor.Domain.Models.{FecParams, block_size, BlockPlan}
use file_monitor.Domain.Planning.{block_plan, compute_block_plans}
use file_monitor.Domain.Planning.Count.{calculate_block_count_lem}

-- The plans are numbered from `i` on and cover the bytes from `start` to `size` with no gap and no
-- overlap. Each holds at least one byte and at most `b`, and each but the last holds exactly `b`.
abbrev pub Tiles : ℕ → ℕ → ℕ → ℕ → List BlockPlan → Type 0
Tiles b size i start [] = start ≡ size
Tiles b size i start (p ∷ ps) =
    (end : ℕ) × (p.block_id ≡ i)
    × (p.start_byte ≡ pos start)
    × (p.end_byte ≡ pos end)
    × (start < end)
    × (end ≤ start + b)
    × (null ps ≡ false → end ≡ start + b)
    × Tiles b size (suc i) end ps

min-pos : (a b : ℕ) → min_ℤ (pos a) (pos b) ≡ pos (min a b)
min-pos a b = ground arith

module _ (b size c : ℕ) (b_pos : 0 < b) (enough : size ≤ c * b) (least : c * b < size + b) where
  abbrev plan : ℕ → BlockPlan
  plan = block_plan (pos size) (pos b)

  -- every block before the `c`-th starts inside the file
  inside : (i n : ℕ) → i + suc n ≡ c → i * b + n * b < size
  inside i n e = omega (arith, ap (λ (t : ℕ). t * b) e)

  plan-start : (i : ℕ) → i * b < size → (plan i).start_byte ≡ pos (min (i * b) size)
  unfolding block_plan
  plan-start i h = rw pos-mul (ap pos (omega arith))

  plan-end : (i : ℕ) → (plan i).end_byte ≡ pos (min (suc i * b) size)
  unfolding block_plan
  plan-end i = rw (pos-mul, pos-add, min-pos) (ap pos (omega arith))

  -- a block with another one behind it ends inside the file
  full :
      (i n : ℕ)
      → i + suc n ≡ c
      → null (map plan (range_from (suc i) n)) ≡ false
      → min (suc i * b) size ≡ min (i * b) size + b
  full i zero e h = cc
  full i (suc n) e h = let more = inside i (suc n) e in omega arith

  Tiles-from : (i n : ℕ) → i + n ≡ c → Tiles b size i (min (i * b) size) (map plan (range_from i n))
  Tiles-from i zero e = omega (arith, ap (λ (t : ℕ). t * b) e)
  Tiles-from i (suc n) e =
      let more = inside i n e in
      (
        min (suc i * b) size,
        unfold block_plan in refl,
        plan-start i (omega arith),
        plan-end i,
        omega arith,
        omega arith,
        full i n e,
        Tiles-from (suc i) n (omega arith),
      )

zero-start : (b size : ℕ) → min (0 * b) size ≡ 0
zero-start b size = omega arith

-- For a file of less than 2^53 bytes and a positive block size of at most 2^1074 bytes, the plans
-- succeed and tile the file: numbered from 0, end to end from byte 0 to the end of the file, none
-- empty or above the block size, and all but the last of exactly the block size.
pub compute_block_plans-Tiles :
    (size b : ℕ) (fec : FecParams)
    → block_size fec ≡ pos b
    → 0 < b
    → b ≤ 2 ^ 1074
    → size < 2 ^ 53
    → (plans : List BlockPlan) × (compute_block_plans (pos size) fec ≡ ok plans)
      × Tiles b size 0 0 plans
unfolding compute_block_plans
compute_block_plans-Tiles size b fec is_b b_pos fits small =
    let (enough, least) = ceil_div_bounds size b b_pos in
    (
      map (block_plan (pos size) (pos b)) (range (ceil_div size b)),
      rw (calculate_block_count_lem size b fec is_b b_pos fits small, is_b),
      subst (λ s. Tiles b size 0 s (map (block_plan (pos size) (pos b)) (range (ceil_div size b))))
          (zero-start b size)
          (Tiles-from b size (ceil_div size b) b_pos enough least 0 (ceil_div size b)
            (omega arith)),
    )
