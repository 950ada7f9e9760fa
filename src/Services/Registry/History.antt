-- ===== src/Services/Registry/History.antt =====
-- src/file_monitor/services/registry.py: the registry against the history of its calls.
use file_monitor.Prelude.{
  ℕ, ◌*◌, ◌≤◌, ◌≡◌, refl, Option, none, some, List, [], ◌∷◌, arith, ◌==◌, if◌then◌else◌, ap, ◌∙◌,
}
use file_monitor.Domain.Models.{SenderId}
use file_monitor.Python.Sets.{elem}
use file_monitor.Python.Equality.{nat_eq}
use file_monitor.Python.Dict.{get, get-put, get-remove}
use file_monitor.Python.Dict.Keys.{has}
use file_monitor.Services.Registry.{
  SenderRegistry, init, register, refresh, remove, active_senders, purge_expired,
}
use file_monitor.Services.Registry.Active.{
  IsValid, init-IsValid, register-IsValid, remove-IsValid, active_senders-IsSorted, still_live,
  elem-active_senders,
}

-- A call of the registry, with the reading of the clock that it makes.
pub data Call : Type 0 where
  registers refreshes : (now : ℕ) (sender_id : SenderId) → Call
  removes : (sender_id : SenderId) → Call
  asks : (now : ℕ) → Call

pub perform : Call → SenderRegistry → SenderRegistry
perform (registers now s) r = register now s r
perform (refreshes now s) r = refresh now s r
perform (removes s) r = remove s r
perform (asks now) r = (active_senders now r).1

-- The registry after a history, whose latest call comes first.
pub after : ℕ → List Call → SenderRegistry
unfolding perform
after interval [] = init interval
after interval (c ∷ h) = perform c (after interval h)

-- When a sender was last heard of, if it was not removed since. Queries leave no trace.
abbrev pub last_message : List Call → SenderId → Option ℕ
last_message [] s = none
last_message (registers now j ∷ h) s = if j == s then some now else last_message h s
last_message (refreshes now j ∷ h) s = if j == s then some now else last_message h s
last_message (removes j ∷ h) s = if j == s then none else last_message h s
last_message (asks now ∷ h) s = last_message h s

-- No query of the history was made after `now`.
abbrev pub IsBefore : ℕ → List Call → Type 0
IsBefore now [] = Unit
IsBefore now (asks t ∷ h) = (t ≤ now) × IsBefore now h
IsBefore now (registers t s ∷ h) = IsBefore now h
IsBefore now (refreshes t s ∷ h) = IsBefore now h
IsBefore now (removes s ∷ h) = IsBefore now h

pub perform-IsValid : (c : Call) (r : SenderRegistry) → IsValid r → IsValid (perform c r)
unfolding perform refresh
perform-IsValid (registers now s) r v = register-IsValid now s r v
perform-IsValid (refreshes now s) r v = register-IsValid now s r v
perform-IsValid (removes s) r v = remove-IsValid s r v
perform-IsValid (asks now) r v = (active_senders-IsSorted now r v).2

-- Every history leaves a registry that keeps each sender once.
pub after-IsValid : (interval : ℕ) (h : List Call) → IsValid (after interval h)
unfolding after
after-IsValid interval [] = init-IsValid interval
after-IsValid interval (c ∷ h) = perform-IsValid c (after interval h) (after-IsValid interval h)

timeout-after : (interval : ℕ) (h : List Call) → (after interval h).timeout ≡ interval * 3
unfolding after register refresh remove active_senders purge_expired init
timeout-after interval [] = refl
timeout-after interval (registers now s ∷ h) = timeout-after interval h
timeout-after interval (refreshes now s ∷ h) = timeout-after interval h
timeout-after interval (removes s ∷ h) = timeout-after interval h
timeout-after interval (asks now ∷ h) = timeout-after interval h

-- what has expired at an earlier time has expired now
still_live-still_live :
    (timeout t now : ℕ) (o : Option ℕ)
    → t ≤ now
    → still_live timeout now (still_live timeout t o) ≡ still_live timeout now o
still_live-still_live timeout t now o h = ground arith

live-after :
    (interval now : ℕ) (h : List Call) (s : SenderId)
    → IsBefore now h
    → still_live (interval * 3) now (get (after interval h).last_seen s)
      ≡ still_live (interval * 3) now (last_message h s)
unfolding after register refresh remove
live-after interval now [] s b = unfold init get in refl
live-after interval now (registers t j ∷ h) s b =
    ground (arith, get-put (after interval h).last_seen j s t, live-after interval now h s b)
live-after interval now (refreshes t j ∷ h) s b =
    ground (arith, get-put (after interval h).last_seen j s t, live-after interval now h s b)
live-after interval now (removes j ∷ h) s b =
    ground (arith, get-remove (after interval h).last_seen j s, live-after interval now h s b)
live-after interval now (asks t ∷ h) s b =
    ap (still_live (interval * 3) now) (
      (elem-active_senders t (after interval h) s (after-IsValid interval h)).1
      ∙ ap (λ (k : ℕ). still_live k t (get (after interval h).last_seen s))
          (timeout-after interval h))
    ∙ still_live-still_live (interval * 3) t now (get (after interval h).last_seen s) b.0
    ∙ live-after interval now h s b.1

-- After any history whose queries were made no later than `now`, the senders that are active at
-- `now` are exactly those whose last message, not followed by a removal, is less than three
-- heartbeat intervals old. The queries in between, which forget expired senders, make no difference.
pub active_senders-after :
    (interval now : ℕ) (h : List Call) (s : SenderId)
    → IsBefore now h
    → elem s (active_senders now (after interval h)).0
      ≡ has (still_live (interval * 3) now (last_message h s))
active_senders-after interval now h s b =
    (elem-active_senders now (after interval h) s (after-IsValid interval h)).0
    ∙ ap (λ (k : ℕ). has (still_live k now (get (after interval h).last_seen s)))
        (timeout-after interval h)
    ∙ ap has (live-after interval now h s b)
