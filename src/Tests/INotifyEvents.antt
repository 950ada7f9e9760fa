-- ===== src/Tests/INotifyEvents.antt =====
-- Runs of src/file_monitor/adapters/inotify_events.py.
use file_monitor.Prelude.{◌≡◌, refl, List, [], ◌∷◌, map, All, err, os_error, true}
use file_monitor.Python.Text.{codes}
use file_monitor.Python.Equality.{list_beq}
use file_monitor.Python.Paths.{FilePath, parse, join, is_absolute, as_posix}
use file_monitor.Adapters.INotifyEvents.{listen, child, reading, over, raised}
use file_monitor.Adapters.INotifyEvents.Paths.{
  Notice, closes, moves, other, loses, as_round, all_names, IsBelow, listen-IsBelow,
}

abbrev watch_path : FilePath
watch_path = parse (codes "/watch")

-- a is written, b is moved in, and then events are lost while a and c are there
abbrev batches : List (List Notice)
batches =
    (closes (codes "a") ∷ other (codes "x") ∷ moves (codes "b") ∷ [])
    ∷ (loses (codes "a" ∷ codes "c" ∷ []) ∷ [])
    ∷ []

four_paths :
    map as_posix (listen watch_path (map as_round batches)).0
    ≡ codes "/watch/a" ∷ codes "/watch/b" ∷ codes "/watch/a" ∷ codes "/watch/c" ∷ []
unfolding listen parse join is_absolute as_posix list_beq
four_paths = refl

closed_while_reading :
    listen watch_path ((record (as_round []) { closed_while_reading = true }) ∷ []) ≡ ([], over)
unfolding listen
closed_while_reading = refl

unreadable :
    listen watch_path ((record (as_round []) { events = err os_error }) ∷ [])
    ≡ ([], raised os_error)
unfolding listen
unreadable = refl

listen-IsBelow_example :
    (listen watch_path (map as_round batches)
      ≡ (map (child watch_path) (all_names batches), reading))
    × All (IsBelow watch_path) (map (child watch_path) (all_names batches))
unfolding list_beq
listen-IsBelow_example = listen-IsBelow watch_path batches (
  ((refl, refl), refl),
  (((refl, refl), refl), (((refl, refl), refl), (((refl, refl), refl), tt))),
)
