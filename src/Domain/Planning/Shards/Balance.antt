-- ===== src/Domain/Planning/Shards/Balance.antt =====
-- src/file_monitor/domain/planning.py: the shards of one dispatch are of nearly equal size.
use native.Mathlib.Decide.{dec_lt}
use native.Mathlib.Nat.{div-add-mod', mod-lt}
use file_monitor.Prelude.{
  ℕ, zero, suc, ◌+◌, ◌*◌, ◌/◌, ◌%◌, ◌≤◌, ◌<◌, ◌≡◌, ◌≢◌, ap, ◌∙◌, List, [], ◌∷◌, arith, ◌==◌, length,
  get_elem?, some, length-append, filter, filter-append, range, range_from-suc, Bool-cases, inl,
  inr, if◌then◌else◌, ℤ, pos, ok,
}
use file_monitor.Domain.Models.{SenderId, ShardAssignment}
use file_monitor.Domain.Planning.{derive_shard_assignments}
use file_monitor.Domain.Planning.Shards.{residue_class, shards, derive_shard_assignments-eq-ok}

-- The number of blocks below `t` with remainder `r`, one block more.
class_size : ℕ → ℕ → ℕ → ℕ
class_size t m r = length (residue_class t m r)

class_size-suc :
    (t m r : ℕ) → class_size (suc t) m r ≡ class_size t m r + (if t % m == r then 1 else 0)
unfolding class_size
class_size-suc t m r =
    let p = λ (b : ℕ). b % m == r in
    ap (λ l. length (filter p l)) (range_from-suc 0 t)
    ∙ ap length (filter-append p (range t) ((0 + t) ∷ []))
    ∙ length-append (filter p (range t)) (filter p ((0 + t) ∷ []))
    ∙ ground arith

le_of_mul-lt : (a b m : ℕ) → a * m < b * m + m → a ≤ b
le_of_mul-lt a b m h = grind arith

hit_step :
    (t m q c r : ℕ)
    → q * m + r ≡ t
    → r < m
    → (c * m + r < t + m) × (t ≤ r + c * m)
    → ((c + 1) * m + r < suc t + m) × (suc t ≤ r + (c + 1) * m)
hit_step t m q c r digits r_lt (above, below) =
    let c_le : c ≤ q = le_of_mul-lt c q m (omega arith) in
    let q_le : q ≤ c = le_of_mul-lt q c m (omega arith) in
    let same : q * m ≡ c * m = ap (λ (k : ℕ). k * m) (omega arith) in (omega arith, omega arith)

digit_unique : (m q x c r : ℕ) → q * m + x ≡ c * m + r → x < m → r < m → x ≡ r
digit_unique m q x c r e hx hr =
    let q_le : q ≤ c = le_of_mul-lt q c m (omega arith) in
    let c_le : c ≤ q = le_of_mul-lt c q m (omega arith) in
    let same : q * m ≡ c * m = ap (λ (k : ℕ). k * m) (omega arith) in omega arith

miss_step :
    (t m q x c r : ℕ)
    → q * m + x ≡ t
    → x < m
    → r < m
    → x ≢ r
    → (c * m + r < t + m) × (t ≤ r + c * m)
    → ((c + 0) * m + r < suc t + m) × (suc t ≤ r + (c + 0) * m)
miss_step t m q x c r digits x_lt r_lt ne (above, below) = (
  omega arith,
  elim (dec_lt t (r + c * m)) [
    | yes lt ↦ omega arith
    | no ge ↦ absurd (ne (digit_unique m q x c r (omega arith) x_lt r_lt))
  ],
)

-- In a run of `t` blocks every residue below `m` turns up once in each `m`.
class_size_bounds :
    (t m r : ℕ) → r < m → (class_size t m r * m + r < t + m) × (t ≤ r + class_size t m r * m)
unfolding class_size
class_size_bounds zero m r h = (omega arith, omega arith)
class_size_bounds (suc t) m r h =
    let ih = class_size_bounds t m r h in
    let digits = div-add-mod' t m in
    let rest : t % m < m = mod-lt t (omega arith) in
    elim (Bool-cases (t % m == r)) [
      | inl hit ↦
          rw (class_size-suc t m r, hit)
            (hit_step t m (t / m) (class_size t m r) r (ground arith) h ih)
      | inr miss ↦
          rw (class_size-suc t m r, miss)
            (miss_step t m (t / m) (t % m) (class_size t m r) r digits rest h (ground arith) ih)
    ]

shards-get :
    (total : ℕ) (base : ℤ) (m r : ℕ) (senders : List SenderId) (i : ℕ) (a : ShardAssignment)
    → get_elem? (shards total base m r senders) i ≡ some a
    → (i < length senders) × (a.assigned_blocks ≡ residue_class total m (r + i))
shards-get total base m r [] i a e = absurd (cc)
shards-get total base m r (s ∷ rest) zero a e =
    let blocks : a.assigned_blocks ≡ residue_class total m r = ground arith in
    (omega arith, blocks ∙ ap (residue_class total m) (omega arith))
shards-get total base m r (s ∷ rest) (suc i) a e =
    let (lt, blocks) = shards-get total base m (suc r) rest i a e in
    (omega arith, blocks ∙ ap (residue_class total m) (omega arith))

-- The shards of an accepted list of senders differ by one block at most.
pub derive_shard_assignments-balanced :
    (total : ℕ) (senders : List SenderId) (base_port : ℤ) (assignments : List ShardAssignment)
    → (i j : ℕ) (a b : ShardAssignment)
    → derive_shard_assignments (pos total) senders base_port ≡ ok assignments
    → get_elem? assignments i ≡ some a
    → get_elem? assignments j ≡ some b
    → length a.assigned_blocks ≤ length b.assigned_blocks + 1
unfolding class_size
derive_shard_assignments-balanced total senders base_port assignments i j a b e at_i at_j =
    let (ne, is_shards) = derive_shard_assignments-eq-ok total senders base_port assignments e in
    let n = length senders in
    let (i_lt, a_blocks) = shards-get total base_port n 0 senders i a (rw is_shards at at_i) in
    let (j_lt, b_blocks) = shards-get total base_port n 0 senders j b (rw is_shards at at_j) in
    let (a_above, a_below) = class_size_bounds total n (0 + i) (omega arith) in
    let (b_above, b_below) = class_size_bounds total n (0 + j) (omega arith) in
    rw (a_blocks, b_blocks) (le_of_mul-lt _ (class_size total n (0 + j) + 1) n (omega arith))
