-- ===== src/Prelude/Lists.antt =====
-- Lists measured and built by native numbers, under the library's names, and filters by a test.
use Prim.Native.Nat.{ℕ, zero, suc, ◌+◌}
use mathlib.Core.Path.{◌≡◌, refl, ap, ◌∙◌, subst}
use mathlib.Core.Logic.{inl, inr, ∥∥₁_elim}
use mathlib.Core.Bool.{Bool, true, false, ◌||◌}
use mathlib.Core.Option.{Option, none, some}
use mathlib.Core.List.Perm
use mathlib.Core.List.Permᴰ
use mathlib.Core.List.{List, [], ◌∷◌, ◌++◌, map, Perm, Permᴰ, perm_middle}
use native.Mathlib.Nat.{ℕ_set}
use native.Mathlib.Omega.{arith}
use file_monitor.Prelude.Tests.{if◌then◌else◌, Bool-cases}

-- The proofs of `All` for the elements of a list, from the first on.
infixr 5 ◌&◌
abbrev pub ◌&◌ {ℓ κ} : {P : Type ℓ} {Q : Type κ} → P → Q → P × Q
p & q = (p, q)

module _ {ℓ} {A : Type ℓ} where
  abbrev pub length : List A → ℕ
  length [] = 0
  length (x ∷ xs) = suc (length xs)

  abbrev pub get_elem? : List A → ℕ → Option A
  get_elem? [] i = none
  get_elem? (x ∷ xs) zero = some x
  get_elem? (x ∷ xs) (suc i) = get_elem? xs i

  -- The elements that pass a test, as in a comprehension with `if`.
  abbrev pub filter : (A → Bool) → List A → List A
  filter p [] = []
  filter p (x ∷ xs) = if p x then x ∷ filter p xs else filter p xs

  abbrev pub null : List A → Bool
  null [] = true
  null (x ∷ xs) = false

  abbrev pub All {κ} : (A → Type κ) → List A → Type κ
  All P [] = Unit
  All P (x ∷ xs) = P x × All P xs

  pub All-append_right {κ} : (P : A → Type κ) (xs ys : List A) → All P (xs ++ ys) → All P ys
  All-append_right P [] ys h = h
  All-append_right P (x ∷ xs) ys h = All-append_right P xs ys h.1

  pub length-append : (xs ys : List A) → length (xs ++ ys) ≡ length xs + length ys
  length-append [] ys = omega arith
  length-append (x ∷ xs) ys = omega (arith, length-append xs ys)

  pub filter-append :
      (p : A → Bool) (xs ys : List A) → filter p (xs ++ ys) ≡ filter p xs ++ filter p ys
  filter-append p [] ys = refl
  filter-append p (x ∷ xs) ys = ground (arith, filter-append p xs ys)

module _ {ℓ} {A : Type ℓ} where
  pub length-map {κ} : {B : Type κ} (xs : List A) (f : A → B) → length (map f xs) ≡ length xs
  length-map [] f = refl
  length-map (x ∷ xs) f = ap suc (length-map xs f)

  -- Two disjoint tests together keep what either keeps.
  pub filter-perm-append :
      (p q r : A → Bool) (xs : List A)
      → ((x : A) → r x ≡ (p x || q x))
      → ((x : A) → p x ≡ true → q x ≡ false)
      → Perm (filter p xs ++ filter q xs) (filter r xs)
  filter-perm-append p q r [] split apart = Perm.refl []
  filter-perm-append p q r (x ∷ xs) split apart =
      let rest = filter-perm-append p q r xs split apart in
      elim (Bool-cases (p x)) [
        | inl hp ↦ rw (split x, hp, apart x hp) (Perm.cons x rest)
        | inr hp ↦ elim (Bool-cases (q x)) [
          | inl hq ↦
              rw (split x, hp, hq)
                (Perm.trans (perm_middle (filter p xs) (filter q xs)) (Perm.cons x rest))
          | inr hq ↦ rw (split x, hp, hq) rest
        ]
      ]

module _ {ℓ} {A : Type ℓ} where
  pub filter-none : (p : A → Bool) (xs : List A) → ((x : A) → p x ≡ false) → filter p xs ≡ []
  filter-none p [] h = refl
  filter-none p (x ∷ xs) h = rw (h x) (filter-none p xs h)

  pub filter-all : (p : A → Bool) (xs : List A) → ((x : A) → p x ≡ true) → filter p xs ≡ xs
  filter-all p [] h = refl
  filter-all p (x ∷ xs) h = rw (h x, filter-all p xs h)

  Permᴰ-length : {xs ys : List A} → Permᴰ xs ys → length xs ≡ length ys
  Permᴰ-length Permᴰ.nil = refl
  Permᴰ-length (Permᴰ.cons e p) = ap suc (Permᴰ-length p)
  Permᴰ-length (Permᴰ.swap e e') = refl
  Permᴰ-length (Permᴰ.trans p q) = Permᴰ-length p ∙ Permᴰ-length q

  filter-cons :
      (p : A → Bool) (x y : A) (xs ys : List A)
      → x ≡ y
      → Permᴰ (filter p xs) (filter p ys)
      → Permᴰ (filter p (x ∷ xs)) (filter p (y ∷ ys))
  filter-cons p x y xs ys e rest = elim (Bool-cases (p y)) [
    | inl kept ↦ rw (e, kept) (Permᴰ.cons refl rest)
    | inr dropped ↦ rw (e, dropped) rest
  ]

  filter-swap :
      (p : A → Bool) (a b : A) (l : List A) → Permᴰ (filter p (a ∷ b ∷ l)) (filter p (b ∷ a ∷ l))
  filter-swap p a b l = elim (Bool-cases (p a)) [
    | inl ha ↦ elim (Bool-cases (p b)) [
      | inl hb ↦ rw (ha, hb) (Permᴰ.swap refl refl)
      | inr hb ↦ rw (ha, hb) (Permᴰ.refl (a ∷ filter p l))
    ]
    | inr ha ↦ rw ha (Permᴰ.refl (filter p (b ∷ l)))
  ]

  -- A filter of a rearranged list rearranges the filtered list.
  pub Permᴰ-filter :
      (p : A → Bool) {xs ys : List A} → Permᴰ xs ys → Permᴰ (filter p xs) (filter p ys)
  Permᴰ-filter p Permᴰ.nil = Permᴰ.nil
  Permᴰ-filter p (Permᴰ.cons e q) = filter-cons p _ _ _ _ e (Permᴰ-filter p q)
  Permᴰ-filter p (Permᴰ.swap {a} {b} {a'} {b'} {l} e e') =
      subst (λ x. Permᴰ (filter p (a ∷ b ∷ l)) (filter p (x ∷ b' ∷ l))) e'
        (subst (λ x. Permᴰ (filter p (a ∷ b ∷ l)) (filter p (b ∷ x ∷ l))) e (filter-swap p a b l))
  Permᴰ-filter p (Permᴰ.trans q r) = Permᴰ.trans (Permᴰ-filter p q) (Permᴰ-filter p r)

  pub length-perm : {xs ys : List A} → Perm xs ys → length xs ≡ length ys
  length-perm p = ∥∥₁_elim p (ℕ_set _ _) Permᴰ-length

-- range(start, start + count)
abbrev pub range_from : ℕ → ℕ → List ℕ
range_from start zero = []
range_from start (suc count) = start ∷ range_from (suc start) count

-- range(n)
abbrev pub range : ℕ → List ℕ
range n = range_from 0 n

pub length-range_from : (s n : ℕ) → length (range_from s n) ≡ n
length-range_from s zero = refl
length-range_from s (suc n) = ap suc (length-range_from (suc s) n)

-- The last number of a range stands at its end.
pub range_from-suc : (s n : ℕ) → range_from s (suc n) ≡ range_from s n ++ (s + n) ∷ []
range_from-suc s zero = ap (λ k. k ∷ []) (omega arith)
range_from-suc s (suc n) =
    ap (λ l. s ∷ l)
      (range_from-suc (suc s) n ∙ ap (λ k. range_from (suc s) n ++ k ∷ []) (omega arith))
