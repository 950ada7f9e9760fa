-- ===== src/Adapters/INotifyEvents.antt =====
-- src/file_monitor/adapters/inotify_events.py: the paths that the events of the watched directory give.
-- The package inotify_simple is seen through the batches of events that `read` returns.
pub mod Paths
use file_monitor.Prelude.{
  ℕ, Bool, true, false, ◌||◌, List, [], ◌∷◌, ◌++◌, map, if◌then◌else◌, Result, ok, err, Error,
}
use file_monitor.Python.Text.{Text}
use file_monitor.Python.Paths.{FilePath, join, parse}

-- An event: the flags of its mask that the code tests, its name, and what `iterdir` gives at the time
-- when it is handled, the names of the entries of the directory.
pub record Event : Type 0 where
  pub q_overflow : Bool
  pub close_write : Bool
  pub moved_to : Bool
  pub name : Text
  pub iterdir : Result (List Text)

-- One turn of the loop: whether `close` was called before it, what `read` gives, and whether `close` was
-- called by then.
pub record Round : Type 0 where
  pub closed : Bool
  pub events : Result (List Event)
  pub closed_while_reading : Bool

-- how the generator stands: it reads on, it is over, or it has raised
pub data Ending : Type 0 where
  reading over : Ending
  raised : Error → Ending

abbrev pub Yields : Type 0
Yields = List FilePath × Ending

abbrev pub prepend : List FilePath → Yields → Yields
prepend paths (further, ending) = (paths ++ further, ending)

-- watch_path / name
abbrev pub child : FilePath → Text → FilePath
child watch_path name = join watch_path (parse name)

abbrev list_all : FilePath → Result (List Text) → Yields → Yields
list_all watch_path (err e) rest = ([], raised e)
list_all watch_path (ok names) rest = prepend (map (child watch_path) names) rest

-- the body of the loop over a batch
abbrev pub handle : FilePath → Event → Yields → Yields
handle watch_path event rest =
    if event.q_overflow
    then list_all watch_path event.iterdir rest
    else if event.close_write || event.moved_to
    then prepend (child watch_path event.name ∷ []) rest
    else rest

abbrev pub handle_all : FilePath → List Event → Yields → Yields
handle_all watch_path [] rest = rest
handle_all watch_path (event ∷ events) rest =
    handle watch_path event (handle_all watch_path events rest)

abbrev read_batch : FilePath → Result (List Event) → Bool → Yields → Yields
read_batch watch_path (err e) closed rest = ([], raised e)
read_batch watch_path (ok events) true rest = ([], over)
read_batch watch_path (ok events) false rest = handle_all watch_path events rest

-- `listen`, over the rounds that were made
unfoldable pub listen : FilePath → List Round → Yields
listen watch_path [] = ([], reading)
listen watch_path (round ∷ rounds) =
    let rest = listen watch_path rounds in
    if round.closed
    then ([], over)
    else read_batch watch_path round.events round.closed_while_reading rest
