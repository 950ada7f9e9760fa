-- ===== src/Services/Registry.antt =====
-- src/file_monitor/services/registry.py. A reading of the injected clock is an argument. Times are
-- whole numbers of some unit of the clock.
pub mod Active
pub mod History
use file_monitor.Prelude.{ℕ, ◌+◌, ◌*◌, Bool, List, [], ◌∷◌, leb, if◌then◌else◌}
use file_monitor.Domain.Models.{SenderId}
use file_monitor.Python.Sorted.{sorted}
use file_monitor.Python.Equality.{nat_eq}
use file_monitor.Python.Dict.{Dict, put}
use file_monitor.Python.Dict
use file_monitor.Python.Dict.Keys.{keys}

abbrev missed_heartbeat_limit : ℕ
missed_heartbeat_limit = 3

pub record SenderRegistry : Type 0 where
  pub timeout : ℕ
  pub last_seen : Dict SenderId ℕ

unfoldable pub init : ℕ → SenderRegistry
init heartbeat_interval = record {
  timeout = heartbeat_interval * missed_heartbeat_limit;
  last_seen = [];
}

unfoldable pub register : ℕ → SenderId → SenderRegistry → SenderRegistry
register now sender_id r = record r { last_seen = put r.last_seen sender_id now }

unfoldable pub refresh : ℕ → SenderId → SenderRegistry → SenderRegistry
unfolding register
refresh = register

unfoldable pub remove : SenderId → SenderRegistry → SenderRegistry
remove sender_id r = record r { last_seen = Dict.remove r.last_seen sender_id }

-- `now - last_seen >= timeout`, with no negative difference
abbrev pub is_expired : ℕ → ℕ → ℕ → Bool
is_expired timeout now last_seen = leb (last_seen + timeout) now

-- the comprehension of `_purge_expired`
expired : ℕ → ℕ → Dict SenderId ℕ → List SenderId
expired timeout now [] = []
expired timeout now ((sender_id, last_seen) ∷ d) =
    if is_expired timeout now last_seen
    then sender_id ∷ expired timeout now d
    else expired timeout now d

-- `for sender_id in expired: del self._last_seen[sender_id]`
delete_all : List SenderId → Dict SenderId ℕ → Dict SenderId ℕ
delete_all [] d = d
delete_all (sender_id ∷ rest) d = delete_all rest (Dict.remove d sender_id)

unfoldable pub purge_expired : ℕ → SenderRegistry → SenderRegistry
unfolding expired delete_all
purge_expired now r = record r {
  last_seen = delete_all (expired r.timeout now r.last_seen) r.last_seen;
}

unfoldable pub active_senders : ℕ → SenderRegistry → List SenderId × SenderRegistry
active_senders now r = let r' = purge_expired now r in (sorted (keys r'.last_seen), r')
