-- ===== src/Python/Decimal/Digits.antt =====
-- The digits of a number, read as a number.
use file_monitor.Prelude.{
  ℕ, zero, suc, ◌+◌, ◌-◌, ◌*◌, ◌/◌, ◌%◌, ◌<◌, ◌≡◌, refl, sym, ap, ◌∙◌, [], ◌∷◌, ◌++◌, arith, ltb,
  Bool-cases, inl, inr,
}
use file_monitor.Python.Text.{Text}
use file_monitor.Python.Decimal.{digits, decimal}

-- the number that digits spell behind the number `n`
abbrev read_from : ℕ → Text → ℕ
read_from n [] = n
read_from n (c ∷ cs) = read_from (n * 10 + (c - b'0')) cs

-- the number that digits spell
abbrev pub number_of : Text → ℕ
number_of t = read_from 0 t

read_from-append : (n : ℕ) (a b : Text) → read_from n (a ++ b) ≡ read_from (read_from n a) b
read_from-append n [] b = refl
read_from-append n (c ∷ a) b = read_from-append (n * 10 + (c - b'0')) a b

number_of-digits : (fuel n : ℕ) → n < fuel → number_of (digits fuel n) ≡ n
unfolding digits
number_of-digits zero n enough = absurd (omega arith)
number_of-digits (suc fuel) n enough = elim (Bool-cases (ltb n 10)) [
  | inl one ↦ rw (one, digits) (omega arith)
  | inr more ↦
      let front = number_of-digits fuel (n / 10) (ground arith) in
      rw (more, digits, read_from-append 0 (digits fuel (n / 10)) ((b'0' + n % 10) ∷ []), front)
        (omega arith)
]

pub number_of-decimal : (n : ℕ) → number_of (decimal n) ≡ n
number_of-decimal n = number_of-digits (suc n) n (omega arith)

-- Different numbers are written differently.
pub decimal-injective : (m n : ℕ) → decimal m ≡ decimal n → m ≡ n
decimal-injective m n same = sym (number_of-decimal m) ∙ ap number_of same ∙ number_of-decimal n
