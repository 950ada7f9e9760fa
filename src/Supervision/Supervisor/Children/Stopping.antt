-- ===== src/Supervision/Supervisor/Children/Stopping.antt =====
-- src/file_monitor/supervision/supervisor.py: a shutdown ends the tasks of the children.
use file_monitor.Prelude.{
  ℕ, suc, ◌+◌, ◌≤◌, ◌≡◌, ap, ◌∙◌, Bool, true, some, List, [], ◌∷◌, arith, length,
}
use file_monitor.Python.Text.{Text}
use file_monitor.Python.Equality.{nat_eq, list_eq}
use file_monitor.Python.Dict.{get}
use file_monitor.Supervision.Supervisor.{Policy, Child}
use file_monitor.Supervision.Supervisor.Children.{
  Phase, at_loop, spawning, waiting, backing_off, Task, Resumption, goes_on, spawns, fails_to_spawn,
  exits, resume_at, resume_task, Supervisor,
}
use file_monitor.Supervision.Supervisor.Children.Reached.{Event, run}
use file_monitor.Supervision.Supervisor.Children.Alone.{own, alone, alone_at, run-alone}

module _ {P : Type 0} where
  -- How often a task can still be resumed, if the supervisor is stopping.
  abbrev pub steps_left : Phase P → ℕ
  steps_left at_loop = 1
  steps_left (spawning at) = 2
  steps_left (waiting at process) = 1
  steps_left (backing_off delay) = 1
  steps_left _ = 0

  -- what a task waits for
  abbrev pub Awaits : Phase P → Resumption P → Type 0
  Awaits at_loop (goes_on now) = Unit
  Awaits (backing_off delay) (goes_on now) = Unit
  Awaits (spawning at) (spawns process) = Unit
  Awaits (spawning at) (fails_to_spawn r) = Unit
  Awaits (waiting at process) (exits r) = Unit
  Awaits _ _ = ⊥

  -- Each resumption is one that the task waits for at that time.
  abbrev pub AreAwaited : Policy → List (Resumption P) → Task P → Type 0
  AreAwaited policy [] t = Unit
  AreAwaited policy (r ∷ rs) t =
      Awaits t.phase r × AreAwaited policy rs (resume_task policy true r t)

  abbrev pub stopping_with : List (Resumption P) → List (Bool × Resumption P)
  stopping_with [] = []
  stopping_with (r ∷ rs) = (true, r) ∷ stopping_with rs

  step_lem :
      (policy : Policy) (r : Resumption P) (c : Child) (phase : Phase P)
      → Awaits phase r
      → suc (steps_left (resume_at policy true r c phase).phase) ≤ steps_left phase
  step_lem policy r c phase awaited = ground arith

  steps_lem :
      (policy : Policy) (rs : List (Resumption P)) (t : Task P)
      → AreAwaited policy rs t
      → length rs + steps_left (alone policy (stopping_with rs) t).phase ≤ steps_left t.phase
  unfolding alone resume_task
  steps_lem policy [] t awaited = omega arith
  steps_lem policy (r ∷ rs) t (first, rest) = omega (
    arith,
    step_lem policy r t.child t.phase first,
    steps_lem policy rs (resume_task policy true r t) rest,
  )

-- Once the supervisor is stopping, the resumptions that the task of a child waits for are as many as its
-- phase says, at most: two if its process is being spawned, one if it runs, waits to run again or has not
-- begun, and none behind its end; each brings it nearer to its end, whatever the other tasks do.
pub run-steps_left :
    {P : Type 0} (policy : Policy) (name : Text) (es : List (Event P)) (s : Supervisor P)
    (t : Task P) (rs : List (Resumption P))
    → s.shared.stopping ≡ true
    → get s.tasks name ≡ some t
    → own name true es ≡ stopping_with rs
    → AreAwaited policy rs t
    → (t' : Task P) × (get (run policy es s).tasks name ≡ some t')
      × (length rs + steps_left t'.phase ≤ steps_left t.phase)
run-steps_left policy name es s t rs stopping here steps awaited = (
  alone policy (stopping_with rs) t,
  run-alone policy name es s
      ∙ ap (λ b. alone_at policy (own name b es) (get s.tasks name)) stopping
      ∙ ap (alone_at policy (own name true es)) here
      ∙ ap (λ l. some (alone policy l t)) steps,
  steps_lem policy rs t awaited,
)
