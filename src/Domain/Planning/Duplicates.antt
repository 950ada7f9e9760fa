-- ===== src/Domain/Planning/Duplicates.antt =====
-- src/file_monitor/domain/planning.py: the loop of derive_shard_assignments that looks for duplicate
-- sender ids finds exactly the ids that occur twice or more.
use file_monitor.Prelude.{
  ℕ, ◌+◌, ◌≡◌, refl, ◌∙◌, false, ◌||◌, List, [], ◌∷◌, arith, ltb, if◌then◌else◌,
}
use file_monitor.Python.Sets.{
  elem, add, count, IsDistinct, elem-add, IsDistinct-count, count-IsDistinct,
}
use file_monitor.Domain.Planning.{find_duplicates}

elem-find_duplicates :
    (x : ℕ) (seen duplicates xs : List ℕ)
    → elem x (find_duplicates seen duplicates xs)
      ≡ (elem x duplicates || ltb 1 ((if elem x seen then 1 else 0) + count x xs))
unfolding find_duplicates
elem-find_duplicates x seen duplicates [] = ground arith
elem-find_duplicates x seen duplicates (y ∷ ys) = ground (
  arith,
  elem-find_duplicates x (add y seen) (if elem y seen then add y duplicates else duplicates) ys,
  elem-add x y seen,
  elem-add x y duplicates,
)

-- The ids that the loop reports are the ones that occur at least twice in the list.
pub find_duplicates_lem :
    (x : ℕ) (xs : List ℕ) → elem x (find_duplicates [] [] xs) ≡ ltb 1 (count x xs)
find_duplicates_lem x xs = ground (arith, elem-find_duplicates x [] [] xs)

null-of_elem : (xs : List ℕ) → ((x : ℕ) → elem x xs ≡ false) → xs ≡ []
null-of_elem [] h = refl
null-of_elem (x ∷ xs) h = ground (arith, h x)

pub find_duplicates-nil : (xs : List ℕ) → IsDistinct xs → find_duplicates [] [] xs ≡ []
find_duplicates-nil xs d = null-of_elem _ (λ x. find_duplicates_lem x xs ∙ IsDistinct-count x xs d)

pub find_duplicates-nil-IsDistinct : (xs : List ℕ) → find_duplicates [] [] xs ≡ [] → IsDistinct xs
find_duplicates-nil-IsDistinct xs e =
    count-IsDistinct xs (λ x. let same = find_duplicates_lem x xs in ground (arith, same))
