-- ===== src/Python/TrueDivision.antt =====
-- `math.ceil(a / b)` on integers. `/` gives the binary64 number that is nearest to the quotient, ties
-- to the even significand; `math.ceil` rounds that number up. A float is written as a numerator over
-- a power of two. (domain/planning.py takes the number of blocks of a file in this way.)
use file_monitor.Prelude.{
  ℕ, zero, suc, ◌+◌, ◌-◌, ◌*◌, ◌/◌, ◌%◌, ◌^◌, ◌≤◌, ◌<◌, ◌≡◌, ◌⊎◌, inl, inr, sym, ap, true, false,
  arith, ltb, leb, ◌==◌, lt→ltb, if◌then◌else◌, Bool-cases, ℤ, pos, negsuc, sub_ℕ, Result, ok, err,
  ◌>>=◌, zero_division, overflow,
}
use native.Mathlib.Nat.{
  div-add-mod', div-le_of_le-mul, mod-lt, one-le-pow, mul-le-mul_right, lt_of_mul-lt-mul_left,
}

pow-pos : (k : ℕ) → 0 < 2 ^ k
pow-pos k = one-le-pow k 2 (omega arith)

-- a / b to the nearest integer, ties to even
round_half_even : ℕ → ℕ → ℕ
round_half_even a b =
    let q = a / b in
    let r = a % b in
    if ltb (2 * r) b then q else if ltb b (2 * r) then q + 1 else if q % 2 == 0 then q else q + 1

-- How many binary places keep 53 significant bits; 1074 at most, where the subnormal numbers end.
places : ℕ → ℕ → ℕ → ℕ → ℕ
places zero k a b = k
places (suc f) k a b = elim (leb (2 ^ 52 * b) (a * 2 ^ k)) [
  | true ↦ k
  | false ↦ places f (suc k) a b
]

-- How many low bits a quotient of more than 53 bits loses.
excess : ℕ → ℕ → ℕ → ℕ → ℕ
excess zero e a b = e
excess (suc f) e a b = elim (ltb a (2 ^ 53 * b * 2 ^ e)) [ true ↦ e | false ↦ excess f (suc e) a b ]

-- The float nearest to a / b, for 0 < b, as a numerator and a denominator.
pub true_div : ℕ → ℕ → Result (ℕ × ℕ)
unfolding round_half_even places excess
true_div a b =
    if ltb a (2 ^ 53 * b)
    then (let k = places 1074 0 a b in ok (round_half_even (a * 2 ^ k) b, 2 ^ k))
    else (let e = excess 1024 0 a b in
        let m = round_half_even a (b * 2 ^ e) * 2 ^ e in
        if leb (2 ^ 1024) m then err overflow else ok (m, 1))

abbrev pub ceil_div : ℕ → ℕ → ℕ
ceil_div a b = (a + b - 1) / b

-- math.ceil of a float with the sign of the quotient
up : Result (ℕ × ℕ) → Result ℤ
up q = do (m, d) ← q; ok (pos (ceil_div m d))

down : Result (ℕ × ℕ) → Result ℤ
down q = do (m, d) ← q; ok (sub_ℕ 0 (m / d))

unfoldable pub ceil_true_div : ℤ → ℤ → Result ℤ
unfolding true_div up down
ceil_true_div a (pos zero) = err zero_division
ceil_true_div (pos a) (pos (suc b)) = up (true_div a (suc b))
ceil_true_div (pos a) (negsuc b) = down (true_div a (suc b))
ceil_true_div (negsuc a) (pos (suc b)) = down (true_div (suc a) (suc b))
ceil_true_div (negsuc a) (negsuc b) = up (true_div (suc a) (suc b))

pub ceil_div_bounds : (a b : ℕ) → 0 < b → (a ≤ ceil_div a b * b) × (ceil_div a b * b < a + b)
ceil_div_bounds a b h = grind arith

pub ceil_div_unique : (n a b : ℕ) → a ≤ n * b → n * b < a + b → n ≡ ceil_div a b
ceil_div_unique n a b h k = grind arith

quotient-le : (x b n : ℕ) → 0 < b → x ≤ n * b → (x / b ≤ n) × (x / b ≡ n → x % b ≡ 0)
quotient-le x b n h k = (
  div-le_of_le-mul b (omega arith),
  λ e. omega (arith, div-add-mod' x b, ap (λ (t : ℕ). t * b) e),
)

round_half_even-le : (x b n : ℕ) → 0 < b → x ≤ n * b → round_half_even x b ≤ n
unfolding round_half_even
round_half_even-le x b n h k = let (le, tight) = quotient-le x b n h k in ground (arith, tight)

round_half_even_cases :
    (x b : ℕ)
    → ((round_half_even x b ≡ x / b) × (2 * (x % b) ≤ b)) ⊎ (round_half_even x b ≡ x / b + 1)
unfolding round_half_even
round_half_even_cases x b = ground arith

round_half_even-near : (x b : ℕ) → 0 < b → 2 * x ≤ 2 * (round_half_even x b * b) + b
round_half_even-near x b h = elim (round_half_even_cases x b) [
  | inl (e, small) ↦ rw e (omega (arith, div-add-mod' x b))
  | inr e ↦ rw e (omega (arith, div-add-mod' x b, mod-lt x h))
]

places_lem : (f k a b : ℕ) → (2 ^ 52 * b ≤ a * 2 ^ places f k a b) ⊎ (places f k a b ≡ k + f)
unfolding places
places_lem zero k a b = inr (omega arith)
places_lem (suc f) k a b = elim (Bool-cases (leb (2 ^ 52 * b) (a * 2 ^ k))) [
  | inl h ↦ rw (h, places) (inl (ground arith))
  | inr h ↦
      rw (h, places) (elim (places_lem f (suc k) a b) [ inl p ↦ inl p | inr p ↦ inr (omega arith) ])
]

scaled_up : (a b d n : ℕ) → a ≤ n * b → a * d ≤ n * d * b
scaled_up a b d n h = omega (arith, mul-le-mul_right d h)

scaled_near :
    (a b d n m : ℕ) → n * b < a + b → 2 * (a * d) ≤ 2 * (m * b) + b → b < 2 * d → n * d < m + d
scaled_near a b d n m above near fine =
    lt_of_mul-lt-mul_left (2 * b) (omega (arith, mul-le-mul_right (2 * d) above))

-- Rounding to a grid of at least half the spacing 1 / b does not move the ceiling.
ceil_div-round :
    (a b d : ℕ) → 0 < b → b < 2 * d → ceil_div (round_half_even (a * d) b) d ≡ ceil_div a b
ceil_div-round a b d b_pos fine =
    let (le, lt) = ceil_div_bounds a b b_pos in
    sym (
      ceil_div_unique (ceil_div a b) (round_half_even (a * d) b) d
        (round_half_even-le (a * d) b _ b_pos (scaled_up a b d (ceil_div a b) le))
        (scaled_near a b d (ceil_div a b) _ lt (round_half_even-near (a * d) b b_pos) fine))

-- A power of two that keeps 53 bits is fine enough for every numerator below 2 ^ 53.
places-fine : (k a b : ℕ) → a < 2 ^ 53 → 2 ^ 52 * b ≤ a * 2 ^ k → b < 2 * 2 ^ k
places-fine k a b small h =
    lt_of_mul-lt-mul_left (2 ^ 52) (omega (arith, mul-le-mul_right (2 ^ k) small, pow-pos k))

grid-fine : (a b : ℕ) → a < 2 ^ 53 → b ≤ 2 ^ 1074 → b < 2 * 2 ^ places 1074 0 a b
grid-fine a b small fits = elim (places_lem 1074 0 a b) [
  | inl h ↦ places-fine (places 1074 0 a b) a b small h
  | inr e ↦ rw e (omega arith)
]

true_div_lem :
    (a b : ℕ)
    → a < 2 ^ 53
    → 0 < b
    → true_div a b ≡ ok (round_half_even (a * 2 ^ places 1074 0 a b) b, 2 ^ places 1074 0 a b)
unfolding true_div
true_div_lem a b small b_pos = rw (lt→ltb a (2 ^ 53 * b) (grind arith))

-- For numerators below 2 ^ 53 the float's ceiling is the ceiling of the exact quotient.
pub ceil_true_div-exact :
    (a b : ℕ)
    → a < 2 ^ 53
    → 0 < b
    → b ≤ 2 ^ 1074
    → ceil_true_div (pos a) (pos b) ≡ ok (pos (ceil_div a b))
unfolding ceil_true_div
ceil_true_div-exact a zero small b_pos fits = absurd (omega arith)
ceil_true_div-exact a (suc b) small b_pos fits =
    rw (true_div_lem a (suc b) small b_pos, up)
      (ap (λ n. ok (pos n)) (ceil_div-round a (suc b) _ b_pos (grid-fine a (suc b) small fits)))
