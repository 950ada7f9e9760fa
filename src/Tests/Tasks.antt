-- ===== src/Tests/Tasks.antt =====
-- Runs of the task group of `run` of src/file_monitor/main.py.
use file_monitor.Prelude.{◌≡◌, ◌↔◌, refl, [], ◌∷◌, ◌++◌, true, false, List, length, os_error}
use file_monitor.Main.Process.{exit_code_of}
use file_monitor.Main.Tasks.{
  returned, was_cancelled, raised, running, done, TaskGroup, started, Event, signals,
  resumes_waiter, ends, run_group, step, finish_worker, cancel_workers_on_shutdown,
}
use file_monitor.Main.Tasks.Halting.{goes_on, halted, any_raised, run_group-halted}

-- The supervisor returns, as it does without children; after the signal two workers are cancelled and
-- the server fails.
abbrev before : List Event
before = ends 1 returned ∷ resumes_waiter ∷ []

abbrev after : List Event
after =
    ends 3 was_cancelled ∷ ends 0 (raised os_error) ∷ ends 2 was_cancelled ∷ ends 2 returned ∷ []

before_lem : run_group before started ≡ record {
  worker_tasks = running ∷ done returned ∷ running ∷ running ∷ [];
  waiter = running;
  shutdown_event = false;
  errors = [];
}
unfolding run_group step finish_worker cancel_workers_on_shutdown
before_lem = refl

after_lem : run_group (before ++ signals ∷ resumes_waiter ∷ after) started ≡ record {
  worker_tasks =
      done (raised os_error) ∷ done returned ∷ done was_cancelled ∷ done was_cancelled ∷ [];
  waiter = done returned;
  shutdown_event = true;
  errors = os_error ∷ [];
}
unfolding run_group step finish_worker cancel_workers_on_shutdown
after_lem = refl

run_group-halted_example :
    let g : TaskGroup = run_group (before ++ signals ∷ resumes_waiter ∷ after) started in
    (goes_on g.waiter ≡ false)
    × (length g.worker_tasks ≡ 4)
    × (halted g.worker_tasks ≡ true)
    × ((exit_code_of g.errors ≡ 0) ↔ (any_raised g.worker_tasks ≡ false))
run_group-halted_example = run_group-halted before after
