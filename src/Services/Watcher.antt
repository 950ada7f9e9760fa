-- ===== src/Services/Watcher.antt =====
-- src/file_monitor/services/watcher.py: the debouncing and the generator of DirectoryWatcher. A
-- task is known by a
-- number; times are whole numbers of some unit. The paths are of any type `Key` of keys.
pub mod Quiet
pub mod Alive
pub mod Listen
use file_monitor.Prelude.{
  ℕ, zero, suc, ◌+◌, Bool, Option, none, some, List, [], ◌∷◌, ◌++◌, leb, if◌then◌else◌, Error,
  consumer_ended,
}
use file_monitor.Python.Equality.{Eq, ◌==◌, nat_eq}
use file_monitor.Python.Dict.{Dict, get, put, remove}

-- a sleeping task of `_emit_when_stable`, with the time at which its sleep ends
pub record Timer (Key : Type 0) : Type 0 where
  pub path : Key
  pub due : ℕ

-- `created` counts the tasks. Those that sleep are in `timers`; a task that is cancelled is taken out.
pub record DirectoryWatcher (Key : Type 0) : Type 0 where
  pub debounce : ℕ
  pub created : ℕ
  pub timers : Dict ℕ (Timer Key)
  pub pending : Dict Key ℕ
  pub stable_paths : List Key

-- the task of `_consume_raw_events`: it goes on, has ended, or has raised
pub data Consumer : Type 0 where
  consuming ended : Consumer
  failed : (raised : Error) → Consumer

-- what a turn of `_listen` comes to
pub data Listening (Key : Type 0) : Type 0 where
  waits : Listening Key
  yields : (path : Key) (w : DirectoryWatcher Key) → Listening Key
  raises : (raised : Error) (w : DirectoryWatcher Key) → Listening Key

module _ {Key : Type 0} ⦃e : Eq Key⦄ where
  abbrev pub init : ℕ → DirectoryWatcher Key
  init debounce = record {
    debounce = debounce;
    created = 0;
    timers = [];
    pending = [];
    stable_paths = [];
  }

  -- pending_task.cancel()
  abbrev pub cancel : Option ℕ → Dict ℕ (Timer Key) → Dict ℕ (Timer Key)
  cancel none timers = timers
  cancel (some task) timers = remove timers task

  -- `_debounce`, for an event at the time `now`
  unfoldable pub debounce : ℕ → Key → DirectoryWatcher Key → DirectoryWatcher Key
  debounce now path w = record w {
    created = suc w.created;
    timers =
        put (cancel (get w.pending path) w.timers) w.created
          (record { path = path; due = now + w.debounce });
    pending = put w.pending path w.created;
  }

  -- `if self._pending.get(path) is current_task: self._pending.pop(path, None)`
  abbrev pub settle : Option ℕ → ℕ → Key → Dict Key ℕ → Dict Key ℕ
  settle none task path pending = pending
  settle (some current) task path pending = if current == task then remove pending path else pending

  abbrev emit : ℕ → ℕ → Option (Timer Key) → DirectoryWatcher Key → DirectoryWatcher Key
  emit now task none w = w
  emit now task (some timer) w =
      if leb timer.due now
      then record w {
        timers = remove w.timers task;
        pending = settle (get w.pending timer.path) task timer.path w.pending;
        stable_paths = w.stable_paths ++ timer.path ∷ [];
      }
      else w

  -- The end of `_emit_when_stable`, once the sleep of the task is over.
  unfoldable pub emit_when_stable : ℕ → ℕ → DirectoryWatcher Key → DirectoryWatcher Key
  emit_when_stable now task w = emit now task (get w.timers task) w

  -- `for pending_task in self._pending.values(): pending_task.cancel()`
  abbrev pub cancel_all : Dict Key ℕ → Dict ℕ (Timer Key) → Dict ℕ (Timer Key)
  cancel_all [] timers = timers
  cancel_all ((path, task) ∷ pending) timers = cancel_all pending (remove timers task)

  -- the `finally` of `_listen`
  abbrev pub stop_listening : DirectoryWatcher Key → DirectoryWatcher Key
  stop_listening w = record w { timers = cancel_all w.pending w.timers }

  abbrev next_stable : DirectoryWatcher Key → List Key → Listening Key
  next_stable w [] = waits
  next_stable w (path ∷ rest) = yields path (record w { stable_paths = rest })

  -- A turn of the loop of `_listen`. An end of the task that consumes the events comes first, if there is
  -- a path too.
  unfoldable pub listen : Consumer → DirectoryWatcher Key → Listening Key
  listen consuming w = next_stable w w.stable_paths
  listen ended w = raises consumer_ended (stop_listening w)
  listen (failed e) w = raises e (stop_listening w)
