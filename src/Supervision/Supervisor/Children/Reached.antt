-- ===== src/Supervision/Supervisor/Children/Reached.antt =====
-- src/file_monitor/supervision/supervisor.py: what holds however the steps of the tasks and of shutdown are
-- interleaved.
use file_monitor.Prelude.{◌≡◌, false, some, List, [], ◌∷◌, ◌++◌}
use file_monitor.Python.Text.{Text}
use file_monitor.Python.Equality.{nat_eq, list_eq}
use file_monitor.Python.Dict.{Dict, get}
use file_monitor.Supervision.Supervisor.{Policy, terminated, Signal}
use file_monitor.Supervision.Supervisor.Children.{
  Resumption, Supervisor, resume, begin_shutdown, finish_shutdown,
}
use file_monitor.Supervision.Supervisor.Children.Table.{process_at, IsValid}

-- what can happen next
pub data Event (P : Type 0) : Type 0 where
  resumes : (name : Text) (r : Resumption P) → Event P
  begins_shutdown finishes_shutdown : Event P

module _ {P : Type 0} where
  unfoldable pub step : Policy → Event P → Supervisor P → Supervisor P
  step policy (resumes name r) s = resume policy name r s
  step policy begins_shutdown s = begin_shutdown s
  step policy finishes_shutdown s = finish_shutdown s

  unfoldable pub run : Policy → List (Event P) → Supervisor P → Supervisor P
  unfolding step
  run policy [] s = s
  run policy (e ∷ es) s = run policy es (step policy e s)

  -- The signal is one of those that were sent.
  abbrev pub IsSent : Signal P → List (Signal P) → Type 0
  IsSent signal signals = (before after : List (Signal P)) × (signals ≡ before ++ signal ∷ after)

  -- what holds of a supervisor that has come to `s`
  pub record IsKept (s : Supervisor P) : Type 0 where
    pub valid : IsValid s
    pub terminates :
        (name : Text) (p : P)
        → s.shared.stopping ≡ false
        → process_at (get s.tasks name) ≡ some p
        → IsSent (terminated p) (begin_shutdown s).shared.signals
