-- ===== src/Services/Watcher/Listen.antt =====
-- src/file_monitor/services/watcher.py: what the generator passes on, and what it leaves behind.
use file_monitor.Prelude.{
  ℕ, ◌≡◌, refl, ◌∙◌, Bool, true, false, ◌||◌, Option, none, some, Option-cases, List, [], ◌∷◌,
  arith, if◌then◌else◌, inl, inr, ◌⊎◌, consumer_ended,
}
use file_monitor.Python.Equality.{Eq, ◌==◌, nat_eq}
use file_monitor.Python.Dict.{Dict, get, remove, get-remove}
use file_monitor.Services.Watcher.{
  Timer, DirectoryWatcher, Consumer, consuming, ended, failed, Listening, waits, yields, raises,
  cancel_all, stop_listening, next_stable, listen,
}
use file_monitor.Services.Watcher.Quiet.{Happening, IsValid, after, last_event, after-IsValid}

module _ {Key : Type 0} ⦃e : Eq Key⦄ where
  abbrev is_pending : ℕ → Dict Key ℕ → Bool
  is_pending t [] = false
  is_pending t ((path, task) ∷ pending) = task == t || is_pending t pending

  get-cancel_all :
      (pending : Dict Key ℕ) (timers : Dict ℕ (Timer Key)) (t : ℕ)
      → get (cancel_all pending timers) t ≡ (if is_pending t pending then none else get timers t)
  get-cancel_all [] timers t = refl
  get-cancel_all ((path, task) ∷ pending) timers t =
      ground (arith, get-cancel_all pending (remove timers task) t, get-remove timers task t)

  get-is_pending :
      (pending : Dict Key ℕ) (path : Key) (t : ℕ)
      → get pending path ≡ some t
      → is_pending t pending ≡ true
  unfolding get
  get-is_pending [] path t h = absurd (cc)
  get-is_pending ((k, task) ∷ pending) path t h = ground (arith, get-is_pending pending path t)

  -- Every task that sleeps is pending, so that it is cancelled.
  no_task :
      (latest : Key → Option ℕ) (w : DirectoryWatcher Key)
      → IsValid latest w
      → (t : ℕ) → get (stop_listening w).timers t ≡ none
  no_task latest w v t = elim (Option-cases (get w.timers t)) [
    | inl gone ↦ get-cancel_all w.pending w.timers t ∙ ground arith
    | inr (timer, here) ↦
        let pending = get-is_pending w.pending timer.path t (v.is_pending t timer here) in
        get-cancel_all w.pending w.timers t ∙ rw pending refl
  ]

  -- what a turn of the generator may come to
  abbrev pub IsListening : Consumer → DirectoryWatcher Key → Listening Key → Type 0
  IsListening consumer w waits = (consumer ≡ consuming) × (w.stable_paths ≡ [])
  IsListening consumer w (yields path w') =
      (consumer ≡ consuming) × (w.stable_paths ≡ path ∷ w'.stable_paths)
  IsListening consumer w (raises raised w') =
      ((consumer ≡ failed raised) ⊎ ((consumer ≡ ended) × (raised ≡ consumer_ended)))
      × ((t : ℕ) → get w'.timers t ≡ none)

  next_stable-IsListening :
      (w : DirectoryWatcher Key) (paths : List Key)
      → w.stable_paths ≡ paths
      → IsListening consuming w (next_stable w paths)
  next_stable-IsListening w [] h = (refl, h)
  next_stable-IsListening w (path ∷ rest) h = (refl, h)

-- Whatever events a watcher has seen and whatever tasks have run before: its generator passes on the
-- paths that are stable, first come first served; if the task that reads the events has raised, it raises
-- the same, if that task has ended, it raises too, and no task sleeps behind it.
pub listen-IsListening :
    {Key : Type 0} ⦃e : Eq Key⦄ (d : ℕ) (h : List (Happening Key)) (consumer : Consumer)
    → IsListening consumer (after d h) (listen consumer (after d h))
unfolding listen
listen-IsListening d h consuming = next_stable-IsListening (after d h) (after d h).stable_paths refl
listen-IsListening d h ended =
    (inr (refl, refl), no_task (last_event h) (after d h) (after-IsValid d h))
listen-IsListening d h (failed e) =
    (inl refl, no_task (last_event h) (after d h) (after-IsValid d h))
