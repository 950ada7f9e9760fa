-- ===== src/Config/Load/Values.antt =====
-- The values of a TOML file, and what `int` and `str` make of them.
use file_monitor.Prelude.{Bool, true, false, ℤ, pos, Result, ok, err, type_error, List}
use file_monitor.Python.Text.{Text, codes}
use file_monitor.Python.Decimal.{Unicode, int_of_text, str_of_int}

-- A float is given by its integer part, or the exception of `int` where it has none; the texts are
-- what `str` makes of the value. Dates, arrays and tables are `other`.
pub data Value : Type 0 where
  text : (t : Text) → Value
  integer : (z : ℤ) → Value
  boolean : (b : Bool) → Value
  real : (truncated : Result ℤ) (written : Text) → Value
  other : (written : Text) → Value

-- A key of the file: a table, or something else.
pub data Section : Type 0 where
  table : (entries : List (Text × Value)) → Section
  not_table : Section

-- int(value)
unfoldable pub int : Unicode → Value → Result ℤ
int unicode (text t) = int_of_text unicode t
int unicode (integer z) = ok z
int unicode (boolean true) = ok (pos 1)
int unicode (boolean false) = ok (pos 0)
int unicode (real truncated written) = truncated
int unicode (other written) = err type_error

-- str(value)
unfoldable pub str : Value → Result Text
str (text t) = ok t
str (integer z) = str_of_int z
str (boolean true) = ok (codes "True")
str (boolean false) = ok (codes "False")
str (real truncated written) = ok written
str (other written) = ok written
