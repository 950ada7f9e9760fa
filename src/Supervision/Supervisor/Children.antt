-- ===== src/Supervision/Supervisor/Children.antt =====
-- src/file_monitor/supervision/supervisor.py: the tasks of `run`, one for each child, step by step. A
-- step is what happens between two awaits of one task; the steps of several tasks come in any order,
-- and so do those of `shutdown`.
pub mod Table
pub mod Reached
pub mod Alone
pub mod Turns
pub mod Stopping
use file_monitor.Prelude.{
  ℕ, Bool, true, false, ◌||◌, Option, none, some, List, [], ◌∷◌, ◌++◌, null, if◌then◌else◌, Result,
  ok, err, Error,
}
use file_monitor.Python.Text.{Text}
use file_monitor.Python.Equality.{◌==◌, nat_eq, list_eq}
use file_monitor.Python.Dict.{Dict, get, put}
use file_monitor.Supervision.Supervisor.{
  ChildSpec, Policy, Child, fresh, Run, degrade, back_off, Decision, child_exited, terminated,
  killed, State, spawned, reaped, values, signal_all,
}

-- Where the task of a child stands: before the test of the loop, in the await of the spawn, in the await
-- of the process, in the wait for the next turn, or behind its end. A task that is cancelled leaves its
-- process, if it has one, in the table.
pub data Phase (P : Type 0) : Type 0 where
  at_loop : Phase P
  spawning : (started_at : ℕ) → Phase P
  waiting : (started_at : ℕ) (process : P) → Phase P
  backing_off : (delay : ℕ) → Phase P
  given_up ended : Phase P
  cancelled : (left : Option P) → Phase P
  failed : (raised : Error) → Phase P

pub record Task (P : Type 0) : Type 0 where
  pub child : Child
  pub phase : Phase P

-- the readings of the clock behind the exit of a child
pub record Readings : Type 0 where
  pub uptime_read_at : ℕ
  pub exited_at : ℕ
  pub checked_at : ℕ

-- What a task is resumed with. `goes_on` is the start, and the end of a wait for the next turn.
pub data Resumption (P : Type 0) : Type 0 where
  goes_on : (now : ℕ) → Resumption P
  spawns : (process : P) → Resumption P
  fails_to_spawn exits : (readings : Readings) → Resumption P
  is_cancelled : Resumption P

pub record Supervisor (P : Type 0) : Type 0 where
  pub tasks : Dict Text (Task P)
  pub shared : State P

-- name in self._degraded
abbrev pub has : Text → List Text → Bool
has name [] = false
has name (n ∷ names) = n == name || has name names

-- self._degraded.add(name)
abbrev pub add : Text → List Text → List Text
add name names = if has name names then names else name ∷ names

-- a turn, seen by a supervisor that is not stopping
abbrev pub run_of : ℕ → Readings → Run
run_of started_at r = record {
  started_at = started_at;
  uptime_read_at = r.uptime_read_at;
  exited_at = r.exited_at;
  checked_at = r.checked_at;
  stopping_at_exit = false;
  stopping_after_wait = false;
}

module _ {P : Type 0} where
  unfoldable pub is_degraded : Text → State P → Bool
  is_degraded name s = has name s.degraded_names

  -- the end of a turn
  abbrev pub turned : Child → Result (Decision × Child) → Task P
  turned c (err e) = record { child = c; phase = failed e }
  turned c (ok (degrade, c')) = record { child = c'; phase = given_up }
  turned c (ok (back_off delay, c')) = record { child = c'; phase = backing_off delay }

  -- `if self._stopping: return`, and the rest of the turn
  abbrev pub behind_exit : Policy → Bool → ℕ → Readings → Child → Task P
  behind_exit policy true started_at r c = record { child = c; phase = ended }
  behind_exit policy false started_at r c = turned c (child_exited policy (run_of started_at r) c)

  -- `while not self._stopping`, up to the spawn
  abbrev pub begin_turn : Bool → ℕ → Child → Task P
  begin_turn true now c = record { child = c; phase = ended }
  begin_turn false now c = record { child = c; phase = spawning now }

  -- One step of the task, where a resumption that it does not wait for changes nothing.
  abbrev pub resume_at : Policy → Bool → Resumption P → Child → Phase P → Task P
  resume_at policy stopping (goes_on now) c at_loop = begin_turn stopping now c
  resume_at policy stopping (goes_on now) c (backing_off delay) = begin_turn stopping now c
  resume_at policy stopping (spawns process) c (spawning started_at) = record {
    child = c;
    phase = waiting started_at process;
  }
  resume_at policy stopping (fails_to_spawn r) c (spawning started_at) =
      behind_exit policy stopping started_at r c
  resume_at policy stopping (exits r) c (waiting started_at process) =
      behind_exit policy stopping started_at r c
  resume_at policy stopping is_cancelled c at_loop = record { child = c; phase = cancelled none }
  resume_at policy stopping is_cancelled c (spawning started_at) = record {
    child = c;
    phase = cancelled none;
  }
  resume_at policy stopping is_cancelled c (waiting started_at process) = record {
    child = c;
    phase = cancelled (some process);
  }
  resume_at policy stopping is_cancelled c (backing_off delay) = record {
    child = c;
    phase = cancelled none;
  }
  resume_at policy stopping resumption c phase = record { child = c; phase = phase }

  unfoldable pub resume_task : Policy → Bool → Resumption P → Task P → Task P
  resume_task policy stopping resumption t = resume_at policy stopping resumption t.child t.phase

  -- what the step does to the table of processes
  abbrev pub with_process : Text → Resumption P → Phase P → State P → State P
  with_process name (spawns process) (spawning started_at) s = spawned name process s
  with_process name (exits r) (waiting started_at process) s = reaped name s
  with_process name resumption phase s = s

  -- `self._degraded.add(spec.name)`, where the step gave the child up
  abbrev pub with_degraded : Text → Phase P → Phase P → State P → State P
  with_degraded name given_up given_up s = s
  with_degraded name before given_up s = record s { degraded_names = add name s.degraded_names }
  with_degraded name before after s = s

  abbrev pub resume_with :
      Policy → Text → Resumption P → Option (Task P) → Supervisor P → Supervisor P
  resume_with policy name resumption none s = s
  resume_with policy name resumption (some t) s =
      let t' = resume_task policy s.shared.stopping resumption t in
      record {
        tasks = put s.tasks name t';
        shared =
            with_degraded name t.phase t'.phase (with_process name resumption t.phase s.shared);
      }

  -- The task of a child is resumed.
  unfoldable pub resume : Policy → Text → Resumption P → Supervisor P → Supervisor P
  resume policy name resumption s = resume_with policy name resumption (get s.tasks name) s

  abbrev pub begin_unless : Bool → Supervisor P → Supervisor P
  begin_unless true s = s
  begin_unless false s = record s {
    shared =
        signal_all terminated (values s.shared.processes) (record s.shared { stopping = true });
  }

  -- `shutdown` up to its wait; a second call returns at once
  unfoldable pub begin_shutdown : Supervisor P → Supervisor P
  begin_shutdown s = begin_unless s.shared.stopping s

  -- `shutdown` behind its wait
  unfoldable pub finish_shutdown : Supervisor P → Supervisor P
  finish_shutdown s = record s { shared = signal_all killed (values s.shared.processes) s.shared }

  -- a task for each specification
  abbrev pub start_all : List ChildSpec → Dict Text (Task P)
  start_all [] = []
  start_all (spec ∷ specs) =
      put (start_all specs) spec.name (record { child = fresh; phase = at_loop })

  -- `run` of a new supervisor
  abbrev pub start : List ChildSpec → Supervisor P
  start specs = record {
    tasks = start_all specs;
    shared = record { processes = []; degraded_names = []; stopping = false; signals = [] };
  }
