-- ===== src/Adapters/INotifyEvents/Paths.antt =====
-- src/file_monitor/adapters/inotify_events.py: every file that is written or moved in gives a path, below
-- the watched directory.
use mathlib.Core.List.{map-append}
use file_monitor.Prelude.{
  ◌≡◌, refl, sym, ap, ◌∙◌, Bool, true, false, List, [], ◌∷◌, ◌++◌, map, arith, All, ok,
}
use file_monitor.Python.Text.{Text}
use file_monitor.Python.Equality.{◌==◌, nat_eq, list_eq}
use file_monitor.Python.Paths.{FilePath, dots, is_absolute, join, parse, has_part}
use file_monitor.Python.Paths.Print.{IsPart, parse-part}
use file_monitor.Adapters.INotifyEvents.{
  Event, Round, reading, Yields, child, prepend, handle_all, listen,
}

-- What happened in the directory: a file was closed behind a writer, or was moved in; something else; or
-- events were lost, and the directory has these entries when that is seen.
pub data Notice : Type 0 where
  closes moves other : (name : Text) → Notice
  loses : (entries : List Text) → Notice

abbrev event : Bool → Bool → Bool → Text → List Text → Event
event q_overflow close_write moved_to name entries = record {
  q_overflow = q_overflow;
  close_write = close_write;
  moved_to = moved_to;
  name = name;
  iterdir = ok entries;
}

abbrev pub as_event : Notice → Event
as_event (closes name) = event false true false name []
as_event (moves name) = event false false true name []
as_event (other name) = event false false false name []
as_event (loses entries) = event true false false [] entries

-- a turn of the loop that reads these events
abbrev pub as_round : List Notice → Round
as_round notices = record {
  closed = false;
  events = ok (map as_event notices);
  closed_while_reading = false;
}

-- the names that are reported, in their order
abbrev pub names_of : List Notice → List Text
names_of [] = []
names_of (closes name ∷ notices) = name ∷ names_of notices
names_of (moves name ∷ notices) = name ∷ names_of notices
names_of (other name ∷ notices) = names_of notices
names_of (loses entries ∷ notices) = entries ++ names_of notices

abbrev pub all_names : List (List Notice) → List Text
all_names [] = []
all_names (notices ∷ batches) = names_of notices ++ all_names batches

-- the name of an entry of a directory
abbrev pub IsName : Text → Type 0
IsName name = IsPart name × ((dots == name) ≡ false)

-- a path that the planner accepts under the directory
abbrev pub IsBelow : FilePath → FilePath → Type 0
IsBelow watch_path p =
    (relative : FilePath) × (p ≡ join watch_path relative)
    × (is_absolute relative ≡ false)
    × (has_part dots relative.parts ≡ false)

pub child-IsBelow :
    (watch_path : FilePath) (name : Text) → IsName name → IsBelow watch_path (child watch_path name)
unfolding is_absolute
child-IsBelow watch_path name (part, no_dots) =
    (parse name, refl, rw (parse-part name part) refl, rw (parse-part name part) (ground arith))

children-IsBelow :
    (watch_path : FilePath) (names : List Text)
    → All IsName names
    → All (IsBelow watch_path) (map (child watch_path) names)
children-IsBelow watch_path [] h = tt
children-IsBelow watch_path (name ∷ names) (h, hs) =
    (child-IsBelow watch_path name h, children-IsBelow watch_path names hs)

children-append :
    (watch_path : FilePath) (a b : List Text) (further : List FilePath)
    → map (child watch_path) a ++ (map (child watch_path) b ++ further)
      ≡ map (child watch_path) (a ++ b) ++ further
children-append watch_path [] b further = refl
children-append watch_path (x ∷ a) b further =
    ap (λ l. child watch_path x ∷ l) (children-append watch_path a b further)

handle_all_lem :
    (watch_path : FilePath) (notices : List Notice) (rest : Yields)
    → handle_all watch_path (map as_event notices) rest
      ≡ (map (child watch_path) (names_of notices) ++ rest.0, rest.1)
handle_all_lem watch_path [] rest = refl
handle_all_lem watch_path (closes name ∷ notices) rest =
    ap (prepend (child watch_path name ∷ [])) (handle_all_lem watch_path notices rest)
handle_all_lem watch_path (moves name ∷ notices) rest =
    ap (prepend (child watch_path name ∷ [])) (handle_all_lem watch_path notices rest)
handle_all_lem watch_path (other name ∷ notices) rest = handle_all_lem watch_path notices rest
handle_all_lem watch_path (loses entries ∷ notices) rest =
    ap (prepend (map (child watch_path) entries)) (handle_all_lem watch_path notices rest)
    ∙ ap (λ l. (l, rest.1)) (children-append watch_path entries (names_of notices) rest.0)

listen_lem :
    (watch_path : FilePath) (batches : List (List Notice))
    → listen watch_path (map as_round batches)
      ≡ (map (child watch_path) (all_names batches), reading)
unfolding listen
listen_lem watch_path [] = refl
listen_lem watch_path (notices ∷ batches) =
    ap (handle_all watch_path (map as_event notices)) (listen_lem watch_path batches)
    ∙ handle_all_lem watch_path notices (map (child watch_path) (all_names batches), reading)
    ∙ ap (λ l. (l, reading))
        (sym (map-append (child watch_path) (names_of notices) (all_names batches)))

-- As long as nothing closes the generator, it gives a path for each file that is closed behind a writer or
-- moved in, and for each entry of the directory where events were lost, in their order and no others; and
-- each of these paths is relative to the watched directory, with no ".." behind it.
pub listen-IsBelow :
    (watch_path : FilePath) (batches : List (List Notice))
    → All IsName (all_names batches)
    → (listen watch_path (map as_round batches)
        ≡ (map (child watch_path) (all_names batches), reading))
      × All (IsBelow watch_path) (map (child watch_path) (all_names batches))
listen-IsBelow watch_path batches names =
    (listen_lem watch_path batches, children-IsBelow watch_path (all_names batches) names)
