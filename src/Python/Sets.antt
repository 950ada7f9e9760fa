-- ===== src/Python/Sets.antt =====
-- Sets of numbers: membership in a list, how often an element occurs, and lists without repetition.
use mathlib.Core.Logic.{∥∥₁_elim}
use mathlib.Core.List.{Perm, Permᴰ}
use native.Mathlib.Nat.{ℕ_set}
use file_monitor.Prelude.{
  ℕ, ◌+◌, ◌≤◌, ◌≡◌, refl, sym, ◌∙◌, ap, Bool, false, ◌||◌, List, [], ◌∷◌, ◌++◌, arith, ltb, ◌==◌,
  if◌then◌else◌, Bool-cases, inl, inr,
}

-- `x in xs`
abbrev pub elem : ℕ → List ℕ → Bool
elem x [] = false
elem x (y ∷ ys) = (y == x) || elem x ys

-- `xs.add(x)`
abbrev pub add : ℕ → List ℕ → List ℕ
add x xs = if elem x xs then xs else xs ++ x ∷ []

abbrev pub count : ℕ → List ℕ → ℕ
count x [] = 0
count x (y ∷ ys) = (if y == x then 1 else 0) + count x ys

-- No number occurs twice.
abbrev pub IsDistinct : List ℕ → Type 0
IsDistinct [] = Unit
IsDistinct (x ∷ xs) = (elem x xs ≡ false) × IsDistinct xs

elem-append : (x y : ℕ) (xs : List ℕ) → elem x (xs ++ y ∷ []) ≡ ((y == x) || elem x xs)
elem-append x y [] = refl
elem-append x y (z ∷ zs) = ground (arith, elem-append x y zs)

pub elem-add : (x y : ℕ) (xs : List ℕ) → elem x (add y xs) ≡ ((y == x) || elem x xs)
elem-add x y xs = elim (Bool-cases (elem y xs)) [
  | inl h ↦ rw h (ground arith)
  | inr h ↦ rw h (elem-append x y xs)
]

pub elem-count : (x : ℕ) (xs : List ℕ) → elem x xs ≡ ltb 0 (count x xs)
elem-count x [] = refl
elem-count x (y ∷ ys) = ground (arith, elem-count x ys)

pub IsDistinct-count : (x : ℕ) (xs : List ℕ) → IsDistinct xs → ltb 1 (count x xs) ≡ false
IsDistinct-count x [] d = refl
IsDistinct-count x (y ∷ ys) d = ground (arith, IsDistinct-count x ys d.1, elem-count x ys)

pub count-IsDistinct : (xs : List ℕ) → ((x : ℕ) → count x xs ≤ 1) → IsDistinct xs
count-IsDistinct [] h = tt
count-IsDistinct (y ∷ ys) h =
    (ground (arith, h y, elem-count y ys), count-IsDistinct ys (λ x. ground (arith, h x)))

count-permᴰ : (x : ℕ) {xs ys : List ℕ} → Permᴰ xs ys → count x xs ≡ count x ys
count-permᴰ x Permᴰ.nil = refl
count-permᴰ x (Permᴰ.cons e p) = ground (arith, count-permᴰ x p)
count-permᴰ x (Permᴰ.swap e e') = ground arith
count-permᴰ x (Permᴰ.trans p q) = count-permᴰ x p ∙ count-permᴰ x q

-- The order of a list changes neither its elements nor whether one is repeated.
pub count-perm : (x : ℕ) {xs ys : List ℕ} → Perm xs ys → count x xs ≡ count x ys
count-perm x p = ∥∥₁_elim p (ℕ_set _ _) (λ q. count-permᴰ x q)

pub elem-perm : (x : ℕ) (xs ys : List ℕ) → Perm xs ys → elem x xs ≡ elem x ys
elem-perm x xs ys p = elem-count x xs ∙ ap (ltb 0) (count-perm x p) ∙ sym (elem-count x ys)

pub IsDistinct-perm : (xs ys : List ℕ) → Perm ys xs → IsDistinct xs → IsDistinct ys
IsDistinct-perm xs ys p d =
    count-IsDistinct ys (λ x. ground (arith, count-perm x p, IsDistinct-count x xs d))
