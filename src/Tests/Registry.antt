-- ===== src/Tests/Registry.antt =====
-- Runs of src/file_monitor/services/registry.py.
use file_monitor.Prelude.{◌*◌, ◌≡◌, refl, List, [], ◌∷◌, arith}
use file_monitor.Python.Sets.{elem}
use file_monitor.Python.Sorted.{sorted}
use file_monitor.Python.Dict.{get, put}
use file_monitor.Python.Dict
use file_monitor.Python.Dict.Keys.{has}
use file_monitor.Python.Equality.{nat_eq}
use file_monitor.Services.Registry.{SenderRegistry, init, register, active_senders, purge_expired}
use file_monitor.Services.Registry.Active.{IsValid, init-IsValid, register-IsValid, still_live}
use file_monitor.Services.Registry.History.{
  Call, registers, refreshes, removes, asks, after, last_message, active_senders-after,
}

-- heartbeats every 2 seconds: the timeout is 6
abbrev pub two_senders : SenderRegistry
two_senders = register 14 3 (register 10 7 (init 2))

pub two_senders-IsValid : IsValid two_senders
two_senders-IsValid = register-IsValid 14 3 _ (register-IsValid 10 7 _ (init-IsValid 2))

both_active : (active_senders 15 two_senders).0 ≡ 3 ∷ 7 ∷ []
unfolding active_senders purge_expired register init put sorted Dict.remove
both_active = refl

one_expired : (active_senders 16 two_senders).0 ≡ 3 ∷ []
unfolding active_senders purge_expired register init put sorted Dict.remove
one_expired = refl

-- the latest call first
abbrev calls : List Call
calls = asks 16 ∷ refreshes 14 3 ∷ removes 7 ∷ registers 11 3 ∷ registers 10 7 ∷ []

active_senders-after_example :
    elem 3 (active_senders 18 (after 2 calls)).0
    ≡ has (still_live (2 * 3) 18 (last_message calls 3))
active_senders-after_example = active_senders-after 2 18 calls 3 (omega arith, tt)
