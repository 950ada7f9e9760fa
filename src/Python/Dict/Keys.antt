-- ===== src/Python/Dict/Keys.antt =====
-- The keys of a dictionary whose keys are numbers: each stands in it once.
use file_monitor.Prelude.{
  ℕ, ◌≡◌, refl, Bool, true, false, ◌||◌, Option, none, some, List, [], ◌∷◌, map, arith, ◌==◌,
}
use file_monitor.Python.Sets.{elem, IsDistinct}
use file_monitor.Python.Equality.{nat_eq}
use file_monitor.Python.Dict.{Dict, get, put, remove}

-- list(d)
abbrev pub keys {ℓ} : {V : Type ℓ} → Dict ℕ V → List ℕ
keys d = map (λ entry. entry.0) d

abbrev pub has {ℓ} : {V : Type ℓ} → Option V → Bool
has none = false
has (some v) = true

module _ {ℓ} {V : Type ℓ} where
  pub elem-keys : (k : ℕ) (d : Dict ℕ V) → elem k (keys d) ≡ has (get d k)
  unfolding get
  elem-keys k [] = refl
  elem-keys k ((j, v) ∷ d) = ground (arith, elem-keys k d)

  elem-keys-put :
      (k j : ℕ) (v : V) (d : Dict ℕ V) → elem k (keys (put d j v)) ≡ (j == k || elem k (keys d))
  unfolding put
  elem-keys-put k j v [] = refl
  elem-keys-put k j v ((i, w) ∷ d) = ground (arith, elem-keys-put k j v d)

  pub IsDistinct-put :
      (k : ℕ) (v : V) (d : Dict ℕ V) → IsDistinct (keys d) → IsDistinct (keys (put d k v))
  unfolding put
  IsDistinct-put k v [] h = (refl, tt)
  IsDistinct-put k v ((i, w) ∷ d) h =
      ground (arith, elem-keys-put i k v d, IsDistinct-put k v d h.1)

  elem-keys-remove :
      (k j : ℕ) (d : Dict ℕ V) → elem k (keys d) ≡ false → elem k (keys (remove d j)) ≡ false
  unfolding remove
  elem-keys-remove k j [] h = refl
  elem-keys-remove k j ((i, w) ∷ d) h = ground (arith, elem-keys-remove k j d)

  pub IsDistinct-remove :
      (k : ℕ) (d : Dict ℕ V) → IsDistinct (keys d) → IsDistinct (keys (remove d k))
  unfolding remove
  IsDistinct-remove k [] h = tt
  IsDistinct-remove k ((i, w) ∷ d) h =
      ground (arith, elem-keys-remove i k d h.0, IsDistinct-remove k d h.1)
