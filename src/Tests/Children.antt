-- ===== src/Tests/Children.antt =====
-- Runs of several children of src/file_monitor/supervision/supervisor.py. The handles of processes are
-- numbers.
use file_monitor.Prelude.{ℕ, ◌+◌, ◌≤◌, ◌≡◌, refl, some, none, List, [], ◌∷◌, map}
use file_monitor.Python.Text.{Text, codes}
use file_monitor.Python.Equality.{list_beq, nat_eq, list_eq}
use file_monitor.Python.Dict.{get, put, remove}
use file_monitor.Supervision.Supervisor.{
  ChildSpec, default_policy, fresh, supervise_child, child_exited, spawned, reaped, terminated,
}
use file_monitor.Supervision.Supervisor.Children.{
  goes_on, spawns, fails_to_spawn, exits, Readings, Supervisor, Task, waiting, start, resume,
  resume_task, begin_shutdown, finish_shutdown,
}
use file_monitor.Supervision.Supervisor.Children.Reached.{
  Event, resumes, begins_shutdown, finishes_shutdown, run, step,
}
use file_monitor.Supervision.Supervisor.Children.Turns.{
  Spawned, as_run, outcome, ending, run-supervise_child,
}
use file_monitor.Supervision.Supervisor.Children.Stopping.{steps_left, run-steps_left}

abbrev spec : Text → ChildSpec
spec name = record { name = name; argv = []; env = none }

abbrev specs : List ChildSpec
specs = spec (codes "a") ∷ spec (codes "b") ∷ []

abbrev at : ℕ → Readings
at t = record { uptime_read_at = t; exited_at = t; checked_at = t }

-- a runs from 1 to 3 and cannot be spawned at 4, while b starts
abbrev events : List (Event ℕ)
events =
    resumes (codes "a") (goes_on 1)
    ∷ resumes (codes "a") (spawns 100)
    ∷ resumes (codes "b") (goes_on 2)
    ∷ resumes (codes "a") (exits (at 3))
    ∷ resumes (codes "b") (spawns 101)
    ∷ resumes (codes "a") (goes_on 4)
    ∷ resumes (codes "a") (fails_to_spawn (at 4))
    ∷ []

abbrev after : Supervisor ℕ
after = run default_policy events (start specs)

only_b : after.shared.processes ≡ (codes "b", 101) ∷ []
unfolding run step resume resume_task get put remove list_beq spawned reaped child_exited
only_b = refl

abbrev runs : List (Spawned ℕ)
runs = (some 100, 1, at 3) ∷ (none, 4, at 4) ∷ []

run-supervise_child_example :
    (t : Task ℕ) × (get after.tasks (codes "a") ≡ some t)
    × (outcome t.phase ≡ ending (supervise_child default_policy fresh (map as_run runs)))
unfolding get put list_beq
run-supervise_child_example =
    run-supervise_child default_policy specs (codes "a") events runs refl refl

abbrev stopping : Supervisor ℕ
stopping = begin_shutdown after

terminates_b : stopping.shared.signals ≡ terminated 101 ∷ []
unfolding run step resume resume_task get put remove list_beq spawned reaped begin_shutdown
    child_exited
terminates_b = refl

-- b exits and a stops waiting
abbrev last_events : List (Event ℕ)
last_events =
    resumes (codes "b") (exits (at 5)) ∷ finishes_shutdown ∷ resumes (codes "a") (goes_on 5) ∷ []

run-steps_left_example :
    (t' : Task ℕ) × (get (run default_policy last_events stopping).tasks (codes "b") ≡ some t')
    × (1 + steps_left t'.phase ≤ 1)
unfolding run step resume resume_task get put remove list_beq spawned reaped begin_shutdown
    child_exited
run-steps_left_example =
    run-steps_left default_policy (codes "b") last_events stopping
      (record { child = fresh; phase = waiting 2 101 }) (exits (at 5) ∷ []) refl refl refl (tt, tt)

-- A process whose spawn comes to its end behind a shutdown gets no signal.
unnoticed :
    (run {P = ℕ} default_policy
      (resumes (codes "a") (goes_on 1)
        ∷ begins_shutdown
        ∷ finishes_shutdown
        ∷ resumes (codes "a") (spawns 100)
        ∷ [])
      (start specs)).shared.signals
    ≡ []
unfolding run step resume resume_task get put remove list_beq spawned reaped begin_shutdown
    finish_shutdown
unnoticed = refl
