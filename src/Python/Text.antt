-- ===== src/Python/Text.antt =====
-- `str` as the list of its code points, and `bytes` as a list of numbers below 256.
use Prim.Native.Char.{code}
use Prim.Native.String.{String}
use file_monitor.Prelude.{ℕ, ◌<◌, List, [], ◌∷◌, All}

abbrev pub Text : Type 0
Text = List ℕ

abbrev pub Bytes : Type 0
Bytes = List ℕ

abbrev pub IsBytes : Bytes → Type 0
IsBytes bs = All (λ b. b < 256) bs

-- a literal of the source
abbrev pub codes : String → Text
codes String.[] = []
codes (String.◌∷◌ c s) = code c ∷ codes s
