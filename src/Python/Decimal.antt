-- ===== src/Python/Decimal.antt =====
-- `int(text)` and `str(n)` in base 10. What Unicode says of the characters from 127 on is a parameter;
-- a text of more than 4300 digits is refused in both directions.
pub mod Digits
use file_monitor.Prelude.{
  ℕ, zero, suc, ◌+◌, ◌-◌, ◌*◌, ◌/◌, ◌%◌, Bool, true, false, ◌&&◌, ◌||◌, not, Option, none, some,
  List, [], ◌∷◌, ◌++◌, map, ltb, leb, ◌==◌, if◌then◌else◌, length, filter, ℤ, pos, negsuc, sub_ℕ,
  Result, ok, err, bad_int, or_raise,
}
use file_monitor.Python.Text.{Text}

-- the white space of Unicode, and the values of its decimal digits
pub record Unicode : Type 0 where
  pub is_space : ℕ → Bool
  pub decimal : ℕ → Option ℕ

abbrev pub max_str_digits : ℕ
max_str_digits = 4300

abbrev digit_or : Option ℕ → ℕ
digit_or none = b'?'
digit_or (some d) = b'0' + d

-- A character as `int` reads it: ASCII, with `?` for what is neither a digit nor a space.
abbrev ascii : Unicode → ℕ → ℕ
ascii unicode c =
    if ltb c 127 then c else if unicode.is_space c then 32 else digit_or (unicode.decimal c)

abbrev is_digit : ℕ → Bool
is_digit c = leb b'0' c && leb c b'9'

-- a blank, or one of tab, line feed, vertical tab, form feed, carriage return
abbrev is_space : ℕ → Bool
is_space c = c == 32 || (leb 9 c && leb c 13)

all_space : Text → Bool
all_space [] = true
all_space (c ∷ cs) = is_space c && all_space cs

skip_space : Text → Text
skip_space [] = []
skip_space (c ∷ cs) = let rest = skip_space cs in if is_space c then rest else c ∷ cs

-- Digits with single underscores between them, and white space behind. `seen` says that the last
-- character was a digit.
read_digits : (seen : Bool) → ℕ → Text → Option ℕ
unfolding all_space
read_digits seen n [] = if seen then some n else none
read_digits seen n (c ∷ cs) =
    let further = read_digits true (n * 10 + (c - b'0')) cs in
    let apart = read_digits false n cs in
    if is_digit c
    then further
    else if seen
    then if c == b'_' then apart else if all_space (c ∷ cs) then some n else none
    else none

abbrev positive : Option ℕ → Option ℤ
positive none = none
positive (some n) = some (pos n)

abbrev negative : Option ℕ → Option ℤ
negative none = none
negative (some n) = some (sub_ℕ 0 n)

read_signed : Text → Option ℤ
unfolding read_digits
read_signed [] = none
read_signed (c ∷ cs) =
    if c == b'-'
    then negative (read_digits false 0 cs)
    else if c == b'+'
    then positive (read_digits false 0 cs)
    else positive (read_digits false 0 (c ∷ cs))

-- int(text), or a ValueError
unfoldable pub int_of_text : Unicode → Text → Result ℤ
unfolding read_signed skip_space
int_of_text unicode text =
    let plain = map (ascii unicode) text in
    if ltb max_str_digits (length (filter is_digit plain))
    then err bad_int
    else or_raise (read_signed (skip_space plain)) bad_int

-- The digits of a number; `fuel` is more than the number.
unfoldable pub digits : (fuel : ℕ) → ℕ → Text
digits zero n = []
digits (suc fuel) n = elim (ltb n 10) [
  | true ↦ (b'0' + n) ∷ []
  | false ↦ digits fuel (n / 10) ++ (b'0' + n % 10) ∷ []
]

-- a number in an f-string
abbrev pub decimal : ℕ → Text
decimal n = digits (suc n) n

abbrev limited : Text → Text → Result Text
limited number text = if ltb max_str_digits (length number) then err bad_int else ok text

-- str(n), or a ValueError
unfoldable pub str_of_int : ℤ → Result Text
unfolding digits
str_of_int (pos n) = limited (decimal n) (decimal n)
str_of_int (negsuc n) = limited (decimal (suc n)) (b'-' ∷ decimal (suc n))
