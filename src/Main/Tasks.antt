-- ===== src/Main/Tasks.antt =====
-- src/file_monitor/main.py: the task group of `run`, with the four workers and the task that cancels
-- them on shutdown. An event is a signal, a turn of that task, or the end of a worker; events come in
-- any order. asyncio.TaskGroup cancels the other tasks when one fails.
pub mod Halting
use file_monitor.Prelude.{
  ℕ, zero, suc, Bool, true, false, Option, none, some, List, [], ◌∷◌, ◌++◌, map, if◌then◌else◌,
  Error,
}

pub data TaskOutcome : Type 0 where
  returned was_cancelled : TaskOutcome
  raised : (error : Error) → TaskOutcome

-- A task that is cancelled goes on until it ends, in whichever way.
pub data Status : Type 0 where
  running cancelling : Status
  done : (outcome : TaskOutcome) → Status

-- `worker_tasks` are those of ipc.serve, supervisor.run, _run_incoming_dispatch_loop and
-- _run_detection_pipeline, `waiter` is that of _cancel_workers_on_shutdown. The group keeps the
-- exceptions of its tasks in `errors`.
pub record TaskGroup : Type 0 where
  pub worker_tasks : List Status
  pub waiter : Status
  pub shutdown_event : Bool
  pub errors : List Error

abbrev pub started : TaskGroup
started = record {
  worker_tasks = running ∷ running ∷ running ∷ running ∷ [];
  waiter = running;
  shutdown_event = false;
  errors = [];
}

-- task.cancel()
abbrev pub cancel_task : Status → Status
cancel_task running = cancelling
cancel_task t = t

abbrev pub trigger_shutdown : TaskGroup → TaskGroup
trigger_shutdown g = record g { shutdown_event = true }

abbrev cancel_workers : Status → TaskGroup → TaskGroup
cancel_workers running g =
    if g.shutdown_event
    then record g { worker_tasks = map cancel_task g.worker_tasks; waiter = done returned }
    else g
cancel_workers cancelling g = record g { waiter = done was_cancelled }
cancel_workers (done outcome) g = g

-- The task is resumed: behind its wait, if the event is set, or with the CancelledError.
unfoldable pub cancel_workers_on_shutdown : TaskGroup → TaskGroup
cancel_workers_on_shutdown g = cancel_workers g.waiter g

-- The worker ends, if it has not ended yet.
unfoldable pub finish_worker : ℕ → TaskOutcome → List Status → Option (List Status)
finish_worker i outcome [] = none
finish_worker zero outcome (done before ∷ ts) = none
finish_worker zero outcome (t ∷ ts) = some (done outcome ∷ ts)
finish_worker (suc i) outcome (t ∷ ts) = elim (finish_worker i outcome ts) [
  | none ↦ none
  | some ts' ↦ some (t ∷ ts')
]

-- What the group does when a worker has ended: an exception cancels the tasks that go on. Behind the
-- first one they are all cancelled already.
abbrev on_task_done : TaskOutcome → TaskGroup → TaskGroup
on_task_done (raised error) g = record g {
  worker_tasks = map cancel_task g.worker_tasks;
  waiter = cancel_task g.waiter;
  errors = g.errors ++ error ∷ [];
}
on_task_done outcome g = g

abbrev finished : TaskOutcome → Option (List Status) → TaskGroup → TaskGroup
finished outcome none g = g
finished outcome (some ts) g = on_task_done outcome (record g { worker_tasks = ts })

pub data Event : Type 0 where
  signals resumes_waiter : Event
  ends : (worker : ℕ) (outcome : TaskOutcome) → Event

unfoldable pub step : Event → TaskGroup → TaskGroup
step signals g = trigger_shutdown g
step resumes_waiter g = cancel_workers_on_shutdown g
step (ends worker outcome) g = finished outcome (finish_worker worker outcome g.worker_tasks) g

unfoldable pub run_group : List Event → TaskGroup → TaskGroup
run_group [] g = g
run_group (e ∷ es) g = run_group es (step e g)
