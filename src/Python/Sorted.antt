-- ===== src/Python/Sorted.antt =====
-- `sorted` of a list of numbers, as an insertion sort.
use mathlib.Core.List.Perm
use mathlib.Core.List.{Perm}
use file_monitor.Prelude.{
  ℕ, ◌≤◌, List, [], ◌∷◌, arith, leb, if◌then◌else◌, All, Bool-cases, inl, inr, leb→le,
}

insert : ℕ → List ℕ → List ℕ
insert x [] = x ∷ []
insert x (y ∷ ys) = if leb x y then x ∷ y ∷ ys else y ∷ insert x ys

unfoldable pub sorted : List ℕ → List ℕ
unfolding insert
sorted [] = []
sorted (x ∷ xs) = insert x (sorted xs)

insert-perm : (x : ℕ) (xs : List ℕ) → Perm (insert x xs) (x ∷ xs)
unfolding insert
insert-perm x [] = Perm.refl _
insert-perm x (y ∷ ys) = elim (Bool-cases (leb x y)) [
  | inl h ↦ rw (h, insert) (Perm.refl _)
  | inr h ↦ rw (h, insert) (Perm.trans (Perm.cons y (insert-perm x ys)) (Perm.swap x y ys))
]

pub sorted-perm : (xs : List ℕ) → Perm (sorted xs) xs
unfolding sorted
sorted-perm [] = Perm.refl _
sorted-perm (x ∷ xs) = Perm.trans (insert-perm x (sorted xs)) (Perm.cons x (sorted-perm xs))

-- Each element is at most every later one.
abbrev pub IsSorted : List ℕ → Type 0
IsSorted [] = Unit
IsSorted (x ∷ xs) = All (λ y. x ≤ y) xs × IsSorted xs

All-le_trans : (x y : ℕ) (zs : List ℕ) → x ≤ y → All (λ z. y ≤ z) zs → All (λ z. x ≤ z) zs
All-le_trans x y [] h a = tt
All-le_trans x y (z ∷ zs) h a = (omega arith, All-le_trans x y zs h a.1)

All-insert : (P : ℕ → Type 0) (x : ℕ) (xs : List ℕ) → P x → All P xs → All P (insert x xs)
unfolding insert
All-insert P x [] p a = (p, tt)
All-insert P x (y ∷ ys) p a = elim (Bool-cases (leb x y)) [
  | inl h ↦ rw (h, insert) (p, a)
  | inr h ↦ rw (h, insert) (a.0, All-insert P x ys p a.1)
]

insert-IsSorted : (x : ℕ) (xs : List ℕ) → IsSorted xs → IsSorted (insert x xs)
unfolding insert
insert-IsSorted x [] s = (tt, tt)
insert-IsSorted x (y ∷ ys) s = elim (Bool-cases (leb x y)) [
  | inl h ↦ let le : x ≤ y = leb→le x y h in rw (h, insert) ((le, All-le_trans x y ys le s.0), s)
  | inr h ↦
      rw (h, insert) (All-insert (λ z. y ≤ z) x ys (ground arith) s.0, insert-IsSorted x ys s.1)
]

pub sorted-IsSorted : (xs : List ℕ) → IsSorted (sorted xs)
unfolding sorted
sorted-IsSorted [] = tt
sorted-IsSorted (x ∷ xs) = insert-IsSorted x (sorted xs) (sorted-IsSorted xs)
