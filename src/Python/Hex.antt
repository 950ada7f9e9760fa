-- ===== src/Python/Hex.antt =====
-- `bytes.hex`, of which `secrets.token_hex` is the value at random bytes, and `bytes.fromhex`.
use file_monitor.Prelude.{
  ℕ, ◌+◌, ◌-◌, ◌*◌, ◌/◌, ◌%◌, ◌<◌, ◌≡◌, refl, Bool, true, false, ◌&&◌, ◌||◌, Option, none, some, [],
  ◌∷◌, ◌++◌, arith, ltb, leb, ◌==◌, if◌then◌else◌, length, All,
}
use file_monitor.Python.Text.{Text, Bytes, IsBytes}

hex_digit : ℕ → ℕ
hex_digit n = if ltb n 10 then b'0' + n else b'a' + (n - 10)

unfoldable pub hex : Bytes → Text
unfolding hex_digit
hex [] = []
hex (b ∷ bs) = hex_digit (b / 16) ∷ hex_digit (b % 16) ∷ hex bs

digit_value : ℕ → Option ℕ
digit_value c =
    if leb b'0' c && leb c b'9'
    then some (c - b'0')
    else if leb b'a' c && leb c b'f'
    then some (c - b'a' + 10)
    else if leb b'A' c && leb c b'F'
    then some (c - b'A' + 10)
    else none

-- ASCII white space: a blank, or one of tab, line feed, vertical tab, form feed, carriage return
is_space : ℕ → Bool
is_space c = c == 32 || (leb 9 c && leb c 13)

join_digits : Option ℕ → Option ℕ → Option Bytes → Option Bytes
join_digits (some h) (some l) (some bs) = some ((h * 16 + l) ∷ bs)
join_digits _ _ _ = none

-- White space is skipped between bytes; `none` is the ValueError.
unfoldable pub from_hex : Text → Option Bytes
unfolding join_digits is_space digit_value
from_hex [] = some []
from_hex (c ∷ []) = if is_space c then some [] else none
from_hex (c ∷ d ∷ rest) =
    let skipped = from_hex (d ∷ rest) in
    let taken = join_digits (digit_value c) (digit_value d) (from_hex rest) in
    if is_space c then skipped else taken

hex_digit_lem :
    (n : ℕ) → n < 16 → (digit_value (hex_digit n) ≡ some n) × (is_space (hex_digit n) ≡ false)
unfolding hex_digit digit_value is_space
hex_digit_lem n h = ground arith

-- Decoding undoes encoding.
pub from_hex-hex : (bs : Bytes) → IsBytes bs → from_hex (hex bs) ≡ some bs
unfolding from_hex hex
from_hex-hex [] h = refl
from_hex-hex (b ∷ bs) h = ground (
  arith,
  hex_digit_lem (b / 16) (omega arith),
  hex_digit_lem (b % 16) (omega arith),
  from_hex-hex bs h.1,
)

pub length-hex : (bs : Bytes) → length (hex bs) ≡ 2 * length bs
unfolding hex
length-hex [] = omega arith
length-hex (b ∷ bs) = omega (arith, length-hex bs)

abbrev pub IsLowerHex : ℕ → Type 0
IsLowerHex c = ((leb b'0' c && leb c b'9') || (leb b'a' c && leb c b'f')) ≡ true

hex_digit-IsLowerHex : (n : ℕ) → n < 16 → IsLowerHex (hex_digit n)
unfolding hex_digit
hex_digit-IsLowerHex n h = ground arith

pub hex-IsLowerHex : (bs : Bytes) → IsBytes bs → All IsLowerHex (hex bs)
unfolding hex
hex-IsLowerHex [] h = tt
hex-IsLowerHex (b ∷ bs) h = (
  hex_digit-IsLowerHex (b / 16) (omega arith),
  (hex_digit-IsLowerHex (b % 16) (omega arith), hex-IsLowerHex bs h.1),
)

-- White space behind a hash is read over.
pub from_hex-blanks : (bs : Bytes) → IsBytes bs → from_hex (hex bs ++ 32 ∷ 32 ∷ []) ≡ some bs
unfolding from_hex hex
from_hex-blanks [] h = unfold is_space in refl
from_hex-blanks (b ∷ bs) h = ground (
  arith,
  hex_digit_lem (b / 16) (omega arith),
  hex_digit_lem (b % 16) (omega arith),
  from_hex-blanks bs h.1,
)
