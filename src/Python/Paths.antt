-- ===== src/Python/Paths.antt =====
-- `pathlib.Path` on a POSIX system, as far as it is text: a root ("", "/" or "//") and the parts.
pub mod Relative
pub mod Print
use mathlib.Core.Option
use file_monitor.Prelude.{
  ℕ, Bool, true, false, ◌&&◌, ◌||◌, not, Option, none, some, List, [], ◌∷◌, ◌++◌, if◌then◌else◌,
  null, filter,
}
use file_monitor.Python.Text.{Text, codes}
use file_monitor.Python.Equality.{Eq, ◌==◌, nat_eq, list_eq}

pub record FilePath : Type 0 where
  pub root : Text
  pub parts : List Text

abbrev pub slash : ℕ
slash = b'/'

-- "."
abbrev pub dot : Text
dot = b'.' ∷ []

-- ".."
abbrev pub dots : Text
dots = b'.' ∷ b'.' ∷ []

-- path.is_absolute()
unfoldable pub is_absolute : FilePath → Bool
is_absolute p = not (null p.root)

-- base / path
unfoldable pub join : FilePath → FilePath → FilePath
unfolding is_absolute
join base p =
    if is_absolute p then p else record { root = base.root; parts = base.parts ++ p.parts }

-- What is left of `parts` behind the prefix `other`.
strip : List Text → List Text → Option (List Text)
strip [] parts = some parts
strip (o ∷ other) [] = none
strip (o ∷ other) (p ∷ parts) = if o == p then strip other parts else none

abbrev relative : List Text → FilePath
relative parts = record { root = []; parts = parts }

-- path.relative_to(other); `none` is the ValueError
unfoldable pub relative_to : FilePath → FilePath → Option FilePath
unfolding strip
relative_to p other =
    if p.root == other.root then Option.map relative (strip other.parts p.parts) else none

-- part in path.parts, for a part that is not the root
abbrev pub has_part : Text → List Text → Bool
has_part t [] = false
has_part t (p ∷ parts) = t == p || has_part t parts

join_parts : List Text → Text
join_parts [] = []
join_parts (p ∷ []) = p
join_parts (p ∷ q ∷ parts) = p ++ slash ∷ join_parts (q ∷ parts)

-- path.as_posix(), which is str(path) here: a path with no root and no part is written "."
unfoldable pub as_posix : FilePath → Text
unfolding join_parts
as_posix p = if null p.root && null p.parts then dot else p.root ++ join_parts p.parts

root_of : Text → Text
root_of (a ∷ b ∷ c ∷ rest) =
    if a == slash
    then if b == slash && not (c == slash) then slash ∷ slash ∷ [] else slash ∷ []
    else []
root_of (a ∷ b ∷ []) =
    if a == slash then if b == slash then slash ∷ slash ∷ [] else slash ∷ [] else []
root_of (a ∷ []) = if a == slash then slash ∷ [] else []
root_of [] = []

abbrev cons_head : ℕ → List Text → List Text
cons_head c [] = (c ∷ []) ∷ []
cons_head c (t ∷ ts) = (c ∷ t) ∷ ts

-- text.split("/")
split_slash : Text → List Text
split_slash [] = [] ∷ []
split_slash (c ∷ cs) = if c == slash then [] ∷ split_slash cs else cons_head c (split_slash cs)

-- empty parts and "." are dropped
abbrev kept : Text → Bool
kept t = not (null t || t == dot)

-- Path(text)
unfoldable pub parse : Text → FilePath
unfolding root_of split_slash
parse t = record { root = root_of t; parts = filter kept (split_slash t) }
