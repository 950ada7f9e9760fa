-- ===== src/Services/Registry/Active.antt =====
-- src/file_monitor/services/registry.py: the invariant of the registry, and which senders are active.
use file_monitor.Prelude.{
  ℕ, ◌+◌, ◌≡◌, refl, Bool, false, Option, none, some, List, [], ◌∷◌, arith, ltb, ◌==◌,
  if◌then◌else◌, ◌∙◌, ap,
}
use file_monitor.Domain.Models.{SenderId}
use file_monitor.Python.Sets.{elem, IsDistinct, IsDistinct-perm, elem-perm}
use file_monitor.Python.Sorted.{sorted, sorted-perm, IsSorted, sorted-IsSorted}
use file_monitor.Python.Equality.{nat_eq}
use file_monitor.Python.Dict
use file_monitor.Python.Dict.{Dict, get, get-put, get-remove}
use file_monitor.Python.Dict.Keys.{keys, has, elem-keys, IsDistinct-put, IsDistinct-remove}
use file_monitor.Services.Registry.{
  SenderRegistry, init, register, remove, is_expired, expired, delete_all, purge_expired,
  active_senders,
}

-- Each sender is kept once.
pub record IsValid (r : SenderRegistry) : Type 0 where
  pub distinct : IsDistinct (keys r.last_seen)

pub init-IsValid : (interval : ℕ) → IsValid (init interval)
unfolding init
init-IsValid interval = record { distinct = tt }

pub register-IsValid :
    (now : ℕ) (s : SenderId) (r : SenderRegistry) → IsValid r → IsValid (register now s r)
unfolding register
register-IsValid now s r v = record { distinct = IsDistinct-put s now r.last_seen v.distinct }

pub remove-IsValid : (s : SenderId) (r : SenderRegistry) → IsValid r → IsValid (remove s r)
unfolding remove
remove-IsValid s r v = record { distinct = IsDistinct-remove s r.last_seen v.distinct }

delete_all-IsDistinct :
    (ks : List SenderId) (d : Dict SenderId ℕ)
    → IsDistinct (keys d)
    → IsDistinct (keys (delete_all ks d))
unfolding delete_all
delete_all-IsDistinct [] d h = h
delete_all-IsDistinct (k ∷ ks) d h =
    delete_all-IsDistinct ks (Dict.remove d k) (IsDistinct-remove k d h)

pub purge_expired-IsValid :
    (now : ℕ) (r : SenderRegistry) → IsValid r → IsValid (purge_expired now r)
unfolding purge_expired
purge_expired-IsValid now r v = record {
  distinct = delete_all-IsDistinct (expired r.timeout now r.last_seen) r.last_seen v.distinct;
}

get-delete_all :
    (ks : List SenderId) (d : Dict SenderId ℕ) (s : SenderId)
    → get (delete_all ks d) s ≡ (if elem s ks then none else get d s)
unfolding delete_all
get-delete_all [] d s = refl
get-delete_all (k ∷ ks) d s =
    rw (get-delete_all ks (Dict.remove d k) s) (ground (arith, get-remove d k s))

-- the entry that is left of an entry at `now`, if it is less than the timeout old
abbrev pub still_live : ℕ → ℕ → Option ℕ → Option ℕ
still_live timeout now none = none
still_live timeout now (some t) = if ltb now (t + timeout) then some t else none

abbrev has_expired : ℕ → ℕ → Option ℕ → Bool
has_expired timeout now none = false
has_expired timeout now (some t) = is_expired timeout now t

elem-expired :
    (timeout now : ℕ) (d : Dict SenderId ℕ) (s : SenderId)
    → IsDistinct (keys d)
    → elem s (expired timeout now d) ≡ has_expired timeout now (get d s)
unfolding expired get
elem-expired timeout now [] s h = refl
elem-expired timeout now ((k, t) ∷ d) s h =
    ground (arith, elem-expired timeout now d s h.1, elem-keys s d)

pub get-purge_expired :
    (now : ℕ) (r : SenderRegistry) (s : SenderId)
    → IsValid r
    → get (purge_expired now r).last_seen s ≡ still_live r.timeout now (get r.last_seen s)
unfolding purge_expired
get-purge_expired now r s v =
    get-delete_all (expired r.timeout now r.last_seen) r.last_seen s
    ∙ ground (arith, elem-expired r.timeout now r.last_seen s v.distinct)

-- At time `now` the active senders are exactly those whose last message is less than the timeout
-- old; the others are forgotten, and the last message of an active sender is kept as it was.
pub elem-active_senders :
    (now : ℕ) (r : SenderRegistry) (s : SenderId)
    → IsValid r
    → (elem s (active_senders now r).0 ≡ has (still_live r.timeout now (get r.last_seen s)))
      × (get (active_senders now r).1.last_seen s ≡ still_live r.timeout now (get r.last_seen s))
unfolding active_senders
elem-active_senders now r s v = (
  elem-perm s _ _ (sorted-perm (keys (purge_expired now r).last_seen))
      ∙ elem-keys s (purge_expired now r).last_seen
      ∙ ap has (get-purge_expired now r s v),
  get-purge_expired now r s v,
)

-- The list of active senders is in ascending order, names no sender twice, and the registry that is
-- left keeps each sender once.
pub active_senders-IsSorted :
    (now : ℕ) (r : SenderRegistry)
    → IsValid r
    → IsSorted (active_senders now r).0
      × IsDistinct (active_senders now r).0
      × IsValid (active_senders now r).1
unfolding active_senders
active_senders-IsSorted now r v =
    let ks = keys (purge_expired now r).last_seen in
    (
      sorted-IsSorted ks,
      IsDistinct-perm ks (sorted ks) (sorted-perm ks) (purge_expired-IsValid now r v).distinct,
      purge_expired-IsValid now r v,
    )

-- A sender heard of at `now` stays active for less than the timeout and no longer, whatever the
-- registry held of it before.
pub active_senders-register :
    (now later : ℕ) (s : SenderId) (r : SenderRegistry)
    → IsValid r
    → elem s (active_senders later (register now s r)).0 ≡ ltb later (now + r.timeout)
unfolding register
active_senders-register now later s r v =
    (elem-active_senders later (register now s r) s (register-IsValid now s r v)).0
    ∙ ground (arith, get-put r.last_seen s s now)

-- A removed sender is not active, and removing it changes nothing for any other sender.
pub active_senders-remove :
    (now : ℕ) (s j : SenderId) (r : SenderRegistry)
    → IsValid r
    → elem j (active_senders now (remove s r)).0
      ≡ (if s == j then false else elem j (active_senders now r).0)
unfolding remove
active_senders-remove now s j r v =
    (elem-active_senders now (remove s r) j (remove-IsValid s r v)).0
    ∙ ground (arith, get-remove r.last_seen s j, (elem-active_senders now r j v).0)
