-- ===== src/Supervision/Supervisor.antt =====
-- src/file_monitor/supervision/supervisor.py. The operating system is seen through what the code asks
-- of it: readings of the clock, whether a spawn succeeded, and whether a shutdown had begun. Times
-- are whole numbers of some unit of the clock.
pub mod History
pub mod Spacing
pub mod Shutdown
pub mod Children
use Prim.Native.Nat.{min}
use file_monitor.Prelude.{
  ℕ, zero, suc, ◌+◌, ◌-◌, ◌≡◌, Bool, true, false, ◌&&◌, not, Option, none, some, List, [], ◌∷◌,
  ◌++◌, map, ltb, ◌==◌, if◌then◌else◌, length, get_elem?, null, Result, ok, err, Error, ◌>>=◌,
  or_raise, index_error,
}
use file_monitor.Python.Text.{Text}
use file_monitor.Python.Equality.{nat_eq, list_eq}
use file_monitor.Python.Dict.{Dict, put}
use file_monitor.Python.Dict

pub record ChildSpec : Type 0 where
  pub name : Text
  pub argv : List Text
  pub env : Option (Dict Text Text)

-- the arguments of `__init__` that govern restarts
pub record Policy : Type 0 where
  pub backoff_schedule : List ℕ
  pub crash_loop_max_restarts : ℕ
  pub crash_loop_window : ℕ

abbrev pub default_backoff_schedule : List ℕ
default_backoff_schedule = 1 ∷ 2 ∷ 4 ∷ 8 ∷ 16 ∷ 30 ∷ []

-- the defaults, in seconds
abbrev pub default_policy : Policy
default_policy = record {
  backoff_schedule = default_backoff_schedule;
  crash_loop_max_restarts = 5;
  crash_loop_window = 60;
}

-- The local variables of `_supervise_child`. The deque is written newest first.
pub record Child : Type 0 where
  pub consecutive_failures : ℕ
  pub exit_timestamps : List ℕ

abbrev pub fresh : Child
fresh = record { consecutive_failures = 0; exit_timestamps = [] }

-- One turn of the loop as the code observes it: the readings of the clock in their order, and whether
-- `_stopping` was set when the child had exited, and when the wait for the next turn was over. A spawn
-- that fails is a child that exits at once.
pub record Run : Type 0 where
  pub started_at : ℕ
  pub uptime_read_at : ℕ
  pub exited_at : ℕ
  pub checked_at : ℕ
  pub stopping_at_exit : Bool
  pub stopping_after_wait : Bool

-- deque(maxlen=n).append(x), newest first
abbrev pub bounded : ℕ → List ℕ → List ℕ
bounded zero xs = []
bounded (suc n) [] = []
bounded (suc n) (x ∷ xs) = x ∷ bounded n xs

-- deque[0], the oldest entry
abbrev pub oldest : List ℕ → Option ℕ
oldest xs = get_elem? xs (length xs - 1)

-- schedule[-1]
abbrev pub last : List ℕ → Option ℕ
last xs = get_elem? xs (length xs - 1)

-- what the loop does next: it gives the child up, or waits before the next turn
pub data Decision : Type 0 where
  degrade : Decision
  back_off : (delay : ℕ) → Decision

-- `consecutive_failures` after the test of the uptime. A clock that went back gives an uptime below 0.
abbrev pub failures_at_exit : ℕ → Run → ℕ → ℕ
failures_at_exit longest run failures =
    if ltb (run.started_at + longest) run.uptime_read_at then 0 else failures

-- `len(exit_timestamps) == max and now - exit_timestamps[0] < window`
abbrev in_crash_loop : Policy → Run → List ℕ → Result Bool
in_crash_loop p run exits =
    if length exits == p.crash_loop_max_restarts
    then (do
      first ← or_raise (oldest exits) index_error
      ok (ltb run.checked_at (first + p.crash_loop_window)))
    else ok false

-- schedule[min(consecutive_failures, len(schedule) - 1)]
abbrev pub delay_at : List ℕ → ℕ → Option ℕ
delay_at schedule failures = get_elem? schedule (min failures (length schedule - 1))

-- the end of a turn, where `delay` is what the schedule holds for the failures
abbrev decide : Bool → (delay : Option ℕ) → (failures : ℕ) → List ℕ → Result (Decision × Child)
decide true delay failures exits =
    ok (degrade, record { consecutive_failures = failures; exit_timestamps = exits })
decide false none failures exits = err index_error
decide false (some delay) failures exits =
    ok (back_off delay, record { consecutive_failures = suc failures; exit_timestamps = exits })

-- The body of the loop behind the exit of the child.
unfoldable pub child_exited : Policy → Run → Child → Result (Decision × Child)
child_exited p run c = do
  longest ← or_raise (last p.backoff_schedule) index_error
  let failures = failures_at_exit longest run c.consecutive_failures
  let exits = bounded p.crash_loop_max_restarts (run.exited_at ∷ c.exit_timestamps)
  crash_loop ← in_crash_loop p run exits
  decide crash_loop (delay_at p.backoff_schedule failures) failures exits

-- how the loop stands when the runs that were observed are over
pub data Ending : Type 0 where
  running degraded stopped : Ending

abbrev pub wait_first : ℕ → Result (List ℕ × Ending) → Result (List ℕ × Ending)
wait_first delay r = do (delays, ending) ← r; ok (delay ∷ delays, ending)

abbrev pub next_turn : Run → Decision → Result (List ℕ × Ending) → Result (List ℕ × Ending)
next_turn run degrade rest = ok ([], degraded)
next_turn run (back_off delay) rest =
    if run.stopping_after_wait then ok (delay ∷ [], stopped) else wait_first delay rest

-- The loop of `_supervise_child`, entered before any shutdown, over the runs of a child, with the delays that it waited for.
unfoldable pub supervise_child : Policy → Child → List Run → Result (List ℕ × Ending)
unfolding child_exited
supervise_child p c [] = ok ([], running)
supervise_child p c (run ∷ runs) =
    if run.stopping_at_exit
    then ok ([], stopped)
    else (child_exited p run c >>= λ d. next_turn run d.0 (supervise_child p d.1 runs))

-- What the supervisor shares among its tasks. `P` is the type of the handles of processes, and the
-- signals that were sent are the effect on the operating system.
pub data Signal (P : Type 0) : Type 0 where
  terminated killed : P → Signal P

pub record State (P : Type 0) : Type 0 where
  pub processes : Dict Text P
  pub degraded_names : List Text
  pub stopping : Bool
  pub signals : List (Signal P)

module _ {P : Type 0} where
  -- `self._processes[spec.name] = process`, behind a spawn
  unfoldable pub spawned : Text → P → State P → State P
  spawned name process s = record s { processes = put s.processes name process }

  -- `self._processes.pop(spec.name, None)`, behind the exit of the process
  unfoldable pub reaped : Text → State P → State P
  reaped name s = record s { processes = Dict.remove s.processes name }

  abbrev pub values : Dict Text P → List P
  values d = map (λ entry. entry.1) d

  -- The loops that signal processes; one that is gone raises ProcessLookupError, which is caught.
  abbrev pub signal_all : (P → Signal P) → List P → State P → State P
  signal_all signal ps s = record s { signals = s.signals ++ map signal ps }

  -- `wait_for` is what happens to the table while the processes are awaited for the time that is
  -- allowed. There is no wait if the table is empty.
  unfoldable pub shutdown : (wait_for : Dict Text P → Dict Text P) → State P → State P
  shutdown wait_for s =
      if s.stopping
      then s
      else (let processes = values s.processes in
          let s' = signal_all terminated processes (record s { stopping = true }) in
          let table = if null processes then s'.processes else wait_for s'.processes in
          let remaining = values table in
          signal_all killed remaining (record s' { processes = table }))
