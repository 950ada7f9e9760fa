-- ===== src/Python/Names/Order.antt =====
-- Sorting by name forgets the order in which the entries came.
use mathlib.Core.List.{Permᴰ}
use file_monitor.Prelude.{
  ◌≡◌, ◌≢◌, refl, sym, subst, ◌∙◌, Bool, true, false, All, ◌||◌, List, [], ◌∷◌, arith,
}
use file_monitor.Python.Text.{Text}
use file_monitor.Python.Equality
use file_monitor.Python.Equality.{nat_eq, list_eq, list_beq_iff}
use file_monitor.Python.Names.{text_leb, insert, sorted, has_name, AreDistinct}

text_leb-total : (a b : Text) → text_leb a b ≡ false → text_leb b a ≡ true
unfolding text_leb
text_leb-total [] b h = cc
text_leb-total (x ∷ a) [] h = refl
text_leb-total (x ∷ a) (y ∷ b) h = ground (arith, text_leb-total a b)

text_leb-antisym : (a b : Text) → text_leb a b ≡ true → text_leb b a ≡ true → a ≡ b
unfolding text_leb
text_leb-antisym [] [] h k = refl
text_leb-antisym [] (y ∷ b) h k = cc
text_leb-antisym (x ∷ a) [] h k = cc
text_leb-antisym (x ∷ a) (y ∷ b) h k = ground (arith, text_leb-antisym a b)

text_leb_trans : (a b c : Text) → text_leb a b ≡ true → text_leb b c ≡ true → text_leb a c ≡ true
unfolding text_leb
text_leb_trans [] b c h k = refl
text_leb_trans (x ∷ a) [] c h k = cc
text_leb_trans (x ∷ a) (y ∷ b) [] h k = cc
text_leb_trans (x ∷ a) (y ∷ b) (z ∷ c) h k = ground (arith, text_leb_trans a b c)

||_swap : (a b c : Bool) → (a || (b || c)) ≡ (b || (a || c))
||_swap a b c = ground arith

text_leb_refl : (a : Text) → text_leb a a ≡ true
unfolding text_leb
text_leb_refl [] = refl
text_leb_refl (x ∷ a) = ground (arith, text_leb_refl a)

module _ {A : Type 0} where
  insert_comm :
      (x y : Text × A) (l : List (Text × A))
      → x.0 ≢ y.0
      → insert x (insert y l) ≡ insert y (insert x l)
  unfolding insert
  insert_comm x y [] ne = ground (arith, text_leb-total x.0 y.0, text_leb-antisym x.0 y.0)
  insert_comm x y (z ∷ l) ne = ground (
    arith,
    insert_comm x y l ne,
    text_leb-total x.0 y.0,
    text_leb-antisym x.0 y.0,
    text_leb-total x.0 z.0,
    text_leb-total y.0 z.0,
    text_leb_trans x.0 y.0 z.0,
    text_leb_trans y.0 x.0 z.0,
    text_leb_trans x.0 z.0 y.0,
    text_leb_trans y.0 z.0 x.0,
  )

  has_name-swap :
      (n : Text) (a b a' b' : Text × A) (l : List (Text × A))
      → a ≡ b'
      → b ≡ a'
      → has_name n (a ∷ b ∷ l) ≡ has_name n (a' ∷ b' ∷ l)
  has_name-swap n a b a' b' l e e' =
      rw (e, e') (||_swap (Equality.◌==◌ n b'.0) (Equality.◌==◌ n a'.0) (has_name n l))

  has_name-perm : (n : Text) {xs ys : List (Text × A)} → Permᴰ xs ys → has_name n xs ≡ has_name n ys
  has_name-perm n Permᴰ.nil = refl
  has_name-perm n (Permᴰ.cons e p) = rw (e, has_name-perm n p) refl
  has_name-perm n (Permᴰ.swap e e') = has_name-swap n _ _ _ _ _ e e'
  has_name-perm n (Permᴰ.trans p q) = has_name-perm n p ∙ has_name-perm n q

  AreDistinct-cons :
      (a b : Text × A) (xs ys : List (Text × A))
      → a ≡ b
      → has_name a.0 xs ≡ has_name a.0 ys
      → has_name a.0 xs ≡ false
      → has_name b.0 ys ≡ false
  AreDistinct-cons a b xs ys e same new = subst (λ x. has_name x.0 ys ≡ false) e (sym same ∙ new)

  AreDistinct-swap :
      (a b : Text × A) (l : List (Text × A)) → AreDistinct (a ∷ b ∷ l) → AreDistinct (b ∷ a ∷ l)
  AreDistinct-swap a b l (first, (second, d)) =
      (ground (arith, list_beq_iff a.0 b.0, list_beq_iff b.0 a.0), (ground arith, d))

  AreDistinct-perm : {xs ys : List (Text × A)} → Permᴰ xs ys → AreDistinct xs → AreDistinct ys
  AreDistinct-perm Permᴰ.nil d = d
  AreDistinct-perm (Permᴰ.cons e p) (new, d) =
      (AreDistinct-cons _ _ _ _ e (has_name-perm _ p) new, AreDistinct-perm p d)
  AreDistinct-perm (Permᴰ.swap {a} {b} {a'} {b'} {l} e e') d =
      subst (λ x. AreDistinct (x ∷ b' ∷ l)) e'
        (subst (λ x. AreDistinct (b ∷ x ∷ l)) e (AreDistinct-swap a b l d))
  AreDistinct-perm (Permᴰ.trans p q) d = AreDistinct-perm q (AreDistinct-perm p d)

  insert-swap :
      (a b a' b' : Text × A) (l : List (Text × A))
      → a ≡ b'
      → b ≡ a'
      → (Equality.◌==◌ a.0 b.0 || has_name a.0 l) ≡ false
      → insert a (insert b (sorted l)) ≡ insert a' (insert b' (sorted l))
  insert-swap a b a' b' l e e' new =
      rw (sym e, sym e') (insert_comm a b (sorted l) (λ same. ground (arith, list_beq_iff a.0 b.0)))

  -- The order in which entries with different names come does not matter.
  pub sorted-perm : {xs ys : List (Text × A)} → Permᴰ xs ys → AreDistinct xs → sorted xs ≡ sorted ys
  unfolding sorted
  sorted-perm Permᴰ.nil d = refl
  sorted-perm (Permᴰ.cons e p) d = rw (e, sorted-perm p d.1) refl
  sorted-perm (Permᴰ.swap e e') d = insert-swap _ _ _ _ _ e e' d.0
  sorted-perm (Permᴰ.trans p q) d = sorted-perm p d ∙ sorted-perm q (AreDistinct-perm p d)

  -- The names rise from entry to entry.
  abbrev pub IsIncreasing : List (Text × A) → Type 0
  IsIncreasing [] = Unit
  IsIncreasing (x ∷ xs) = All (λ y. text_leb y.0 x.0 ≡ false) xs × IsIncreasing xs

  insert-least :
      (x : Text × A) (xs : List (Text × A))
      → All (λ y. text_leb y.0 x.0 ≡ false) xs
      → insert x xs ≡ x ∷ xs
  unfolding insert
  insert-least x [] least = refl
  insert-least x (y ∷ ys) least = rw (text_leb-total y.0 x.0 least.0) refl

  pub sorted-IsIncreasing : (xs : List (Text × A)) → IsIncreasing xs → sorted xs ≡ xs
  unfolding sorted
  sorted-IsIncreasing [] up = refl
  sorted-IsIncreasing (x ∷ xs) (least, up) =
      rw (sorted-IsIncreasing xs up) (insert-least x xs least)

  has_name-least :
      (n : Text) (xs : List (Text × A))
      → All (λ y. text_leb y.0 n ≡ false) xs
      → has_name n xs ≡ false
  has_name-least n [] least = refl
  has_name-least n (y ∷ ys) (above, least) =
      ground (arith, has_name-least n ys least, list_beq_iff n y.0, text_leb_refl n)

  pub IsIncreasing-AreDistinct : (xs : List (Text × A)) → IsIncreasing xs → AreDistinct xs
  IsIncreasing-AreDistinct [] up = tt
  IsIncreasing-AreDistinct (x ∷ xs) (least, up) =
      (has_name-least x.0 xs least, IsIncreasing-AreDistinct xs up)
