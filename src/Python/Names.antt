-- ===== src/Python/Names.antt =====
-- The order of texts, by code points, and `sorted` of entries by their names.
pub mod Order
use file_monitor.Prelude.{
  ℕ, ◌≡◌, Bool, true, false, ◌||◌, List, [], ◌∷◌, ltb, ◌==◌, if◌then◌else◌, All,
}
use file_monitor.Python.Text.{Text}
use file_monitor.Python.Equality
use file_monitor.Python.Equality.{nat_eq, list_eq}

-- a <= b
unfoldable pub text_leb : Text → Text → Bool
text_leb [] ys = true
text_leb (x ∷ xs) [] = false
text_leb (x ∷ xs) (y ∷ ys) =
    let rest = text_leb xs ys in if ltb x y then true else if x == y then rest else false

module _ {A : Type 0} where
  unfoldable pub insert : Text × A → List (Text × A) → List (Text × A)
  insert x [] = x ∷ []
  insert x (y ∷ ys) = let rest = insert x ys in if text_leb x.0 y.0 then x ∷ y ∷ ys else y ∷ rest

  unfoldable pub sorted : List (Text × A) → List (Text × A)
  unfolding insert
  sorted [] = []
  sorted (x ∷ xs) = insert x (sorted xs)

  abbrev pub has_name : Text → List (Text × A) → Bool
  has_name n [] = false
  has_name n (x ∷ xs) = Equality.◌==◌ n x.0 || has_name n xs

  -- No two entries have the same name.
  abbrev pub AreDistinct : List (Text × A) → Type 0
  AreDistinct [] = Unit
  AreDistinct (x ∷ xs) = (has_name x.0 xs ≡ false) × AreDistinct xs
