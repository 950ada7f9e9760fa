-- ===== src/Main/Process/Specs.antt =====
-- src/file_monitor/main.py: the sender processes that are started.
use file_monitor.Prelude.{ℕ, ◌<◌, ◌≡◌, some, List, [], ◌∷◌, length, get_elem?}
use file_monitor.Python.Text.{Text, codes}
use file_monitor.Python.Decimal.Digits.{number_of}
use file_monitor.Supervision.Supervisor.{ChildSpec}
use file_monitor.Config.{AppConfig}

-- the process of the sender with an index
pub record IsSender (config : AppConfig) (index : ℕ) (spec : ChildSpec) : Type 0 where
  pub id : Text
  pub is_argv : spec.argv ≡ config.senders.binary_path ∷ codes "--sender-id" ∷ id ∷ []
  pub is_id : number_of id ≡ index

-- what is asked of the specifications of `count` senders
pub record AreSenders (config : AppConfig) (count : ℕ) (specs : List ChildSpec) : Type 0 where
  pub enough : length specs ≡ count
  pub each :
      (i : ℕ)
      → i < count
      → (spec : ChildSpec) × (get_elem? specs i ≡ some spec) × IsSender config i spec
  pub named :
      (i j : ℕ) (a b : ChildSpec)
      → get_elem? specs i ≡ some a
      → get_elem? specs j ≡ some b
      → a.name ≡ b.name
      → i ≡ j
