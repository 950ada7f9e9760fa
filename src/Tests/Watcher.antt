-- ===== src/Tests/Watcher.antt =====
-- Runs of src/file_monitor/services/watcher.py. A path is a number here.
use file_monitor.Prelude.{ℕ, ◌+◌, ◌≤◌, ◌≡◌, refl, ◌⊎◌, true, List, [], ◌∷◌, ◌++◌}
use file_monitor.Python.Equality.{nat_eq}
use file_monitor.Python.Dict.{get, put, remove}
use file_monitor.Services.Watcher.{debounce, emit_when_stable, ended, listen}
use file_monitor.Services.Watcher.Alive.{is_passed_on, seen-passed_on}
use file_monitor.Services.Watcher.Listen.{IsListening, listen-IsListening}
use file_monitor.Services.Watcher.Quiet.{
  Happening, sees, fires, after, last_event, IsPassedOn, emit_when_stable_lem,
}

-- path 5 is written at 10 and at 12, path 6 at 11; the sleep of the first task would end at 15
abbrev history : List (Happening ℕ)
history = fires 15 0 ∷ sees 12 5 ∷ sees 11 6 ∷ sees 10 5 ∷ []

-- it was cancelled at 12
nothing_yet : (after 5 history).stable_paths ≡ []
unfolding after emit_when_stable debounce get put remove
nothing_yet = refl

both_once : (after 5 (fires 17 2 ∷ fires 16 1 ∷ history)).stable_paths ≡ 6 ∷ 5 ∷ []
unfolding after emit_when_stable debounce get put remove
both_once = refl

emit_when_stable_lem_example :
    (emit_when_stable 17 2 (after 5 history) ≡ after 5 history)
    ⊎ IsPassedOn 5 17
        (last_event history)
        (after 5 history)
        (emit_when_stable 17 2 (after 5 history))
emit_when_stable_lem_example = emit_when_stable_lem 5 history 17 2

-- path 5 waits, and path 6 was passed on
seen-passed_on_example :
    (is_passed_on 5 (fires 16 1 ∷ history) 5 ≡ true)
    ⊎ ((t : ℕ) × ((now : ℕ)
          → 12 + 5 ≤ now
          → (emit_when_stable now t (after 5 (fires 16 1 ∷ history))).stable_paths
            ≡ (after 5 (fires 16 1 ∷ history)).stable_paths ++ 5 ∷ []))
seen-passed_on_example = seen-passed_on 5 (fires 16 1 ∷ history) 5 12 refl

listen-IsListening_example : IsListening ended (after 5 history) (listen ended (after 5 history))
listen-IsListening_example = listen-IsListening 5 history ended
