-- ===== src/Supervision/Supervisor/Shutdown.antt =====
-- src/file_monitor/supervision/supervisor.py: shutdown, and the table of processes that it reads.
use file_monitor.Prelude.{◌≡◌, true, List, [], ◌∷◌, ◌++◌, map, null, if◌then◌else◌}
use file_monitor.Python.Text.{Text}
use file_monitor.Python.Equality.{nat_eq, list_eq}
use file_monitor.Python.Dict.{Dict}
use file_monitor.Python.Dict
use file_monitor.Supervision.Supervisor.{State, terminated, killed, values}

-- some of the elements, in their order
pub data Sublist {ℓ} {A : Type ℓ} : List A → List A → Type ℓ where
  nil : Sublist [] []
  keep : (a : A) {xs ys : List A} → Sublist xs ys → Sublist (a ∷ xs) (a ∷ ys)
  drop : (a : A) {xs ys : List A} → Sublist xs ys → Sublist xs (a ∷ ys)

Sublist-nil {ℓ} : {A : Type ℓ} (xs : List A) → Sublist [] xs
Sublist-nil [] = nil
Sublist-nil (x ∷ xs) = drop x (Sublist-nil xs)

module _ {P : Type 0} where
  -- the table after the exits of children with these names, each of which takes its entry out
  unfoldable pub reap_all : List Text → Dict Text P → Dict Text P
  reap_all [] d = d
  reap_all (name ∷ names) d = Dict.remove (reap_all names d) name

  abbrev waited : List Text → Dict Text P → Dict Text P
  waited names d = if null (values d) then d else reap_all names d

  -- What a first shutdown does, if the processes with these names exit while it waits.
  pub record IsShutDown (names : List Text) (s s' : State P) : Type 0 where
    pub stopping : s'.stopping ≡ true
    pub left : List P
    pub left_over : Sublist left (values s.processes)
    pub is_left : left ≡ values s'.processes
    pub signals : s'.signals ≡ s.signals ++ map terminated (values s.processes) ++ map killed left
