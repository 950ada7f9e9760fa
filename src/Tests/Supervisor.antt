-- ===== src/Tests/Supervisor.antt =====
-- Runs of src/file_monitor/supervision/supervisor.py.
use file_monitor.Prelude.{ℕ, ◌≡◌, refl, false, List, [], ◌∷◌, ok}
use file_monitor.Python.Text.{codes}
use file_monitor.Python.Equality.{list_beq}
use file_monitor.Python.Dict
use file_monitor.Python.Dict.{Dict, put}
use file_monitor.Supervision.Supervisor.{
  default_policy, fresh, Run, supervise_child, running, degraded, State, shutdown, terminated,
  killed,
}
use file_monitor.Supervision.Supervisor.Spacing.{
  Supervised, supervise_child_lem, Spaced, supervise_child-Spaced,
}
use file_monitor.Supervision.Supervisor.Shutdown.{reap_all}

-- a child that is started at a time and exits at once
abbrev crash : ℕ → Run
crash t = record {
  started_at = t;
  uptime_read_at = t;
  exited_at = t;
  checked_at = t;
  stopping_at_exit = false;
  stopping_after_wait = false;
}

abbrev five : List Run
five = crash 0 ∷ crash 1 ∷ crash 3 ∷ crash 7 ∷ crash 15 ∷ []

gives_up : supervise_child default_policy fresh five ≡ ok (1 ∷ 2 ∷ 4 ∷ 8 ∷ [], degraded)
unfolding supervise_child
gives_up = refl

-- crashes that lie 20 seconds apart
abbrev slow : List Run
slow = crash 0 ∷ crash 20 ∷ crash 40 ∷ crash 60 ∷ crash 80 ∷ crash 100 ∷ crash 120 ∷ []

keeps_on :
    supervise_child default_policy fresh slow ≡ ok (1 ∷ 2 ∷ 4 ∷ 8 ∷ 16 ∷ 30 ∷ 30 ∷ [], running)
unfolding supervise_child
keeps_on = refl

supervise_child_lem_example :
    Supervised default_policy 4 30 [] five (supervise_child default_policy fresh five)
supervise_child_lem_example = supervise_child_lem default_policy 4 30 five refl refl

supervise_child-Spaced_example : Spaced default_policy 4 [] slow
supervise_child-Spaced_example =
    supervise_child-Spaced default_policy 4 30 slow (1 ∷ 2 ∷ 4 ∷ 8 ∷ 16 ∷ 30 ∷ 30 ∷ []) refl refl
      keeps_on

-- two senders run; the handles of their processes are numbers
abbrev two_children : State ℕ
two_children = record {
  processes = (codes "sender-0", 100) ∷ (codes "sender-1", 101) ∷ [];
  degraded_names = [];
  stopping = false;
  signals = [];
}

-- sender-0 exits when it is told to, sender-1 does not
kills_one :
    (shutdown (reap_all (codes "sender-0" ∷ [])) two_children).signals
    ≡ terminated 100 ∷ terminated 101 ∷ killed 101 ∷ []
unfolding shutdown reap_all Dict.remove list_beq
kills_one = refl
