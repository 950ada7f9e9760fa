-- ===== src/Supervision/Supervisor/Children/Turns.antt =====
-- src/file_monitor/supervision/supervisor.py: the loop of a child step by step, and run by run.
use file_monitor.Prelude.{
  ℕ, ◌≡◌, refl, sym, ap, ◌∙◌, Bool, false, Option, none, some, List, [], ◌∷◌, map, arith, ok, err,
  Result, ◌>>=◌,
}
use file_monitor.Python.Text.{Text}
use file_monitor.Python.Equality.{nat_eq, list_eq}
use file_monitor.Python.Dict.{get}
use file_monitor.Supervision.Supervisor.{
  ChildSpec, Policy, Child, fresh, Run, Decision, degrade, back_off, child_exited, supervise_child,
  next_turn, wait_first, Ending, running, degraded, stopped,
}
use file_monitor.Supervision.Supervisor.Children.{
  Phase, at_loop, spawning, waiting, backing_off, given_up, ended, cancelled, failed, Task,
  Readings, Resumption, goes_on, spawns, fails_to_spawn, exits, run_of, turned, resume_task, start,
}
use file_monitor.Supervision.Supervisor.Children.Reached.{Event, run}
use file_monitor.Supervision.Supervisor.Children.Alone.{own, alone, alone_at, run-alone}

-- the runs of a child, with the process of each, if the spawn succeeded
abbrev pub Spawned : Type 0 → Type 0
Spawned P = Option P × ℕ × Readings

abbrev pub as_run : {P : Type 0} → Spawned P → Run
as_run (process, started_at, r) = run_of started_at r

abbrev pub ending : Result (List ℕ × Ending) → Result Ending
ending (err e) = err e
ending (ok (delays, e)) = ok e

ending-wait_first :
    (delay : ℕ) (r : Result (List ℕ × Ending)) → ending (wait_first delay r) ≡ ending r
ending-wait_first delay (err e) = refl
ending-wait_first delay (ok (delays, e)) = refl

module _ {P : Type 0} where
  -- the resumptions of a run, with no shutdown
  abbrev pub turn : Spawned P → List (Bool × Resumption P) → List (Bool × Resumption P)
  turn (none, started_at, r) rest = (false, goes_on started_at) ∷ (false, fails_to_spawn r) ∷ rest
  turn (some process, started_at, r) rest =
      (false, goes_on started_at) ∷ (false, spawns process) ∷ (false, exits r) ∷ rest

  abbrev pub turns : List (Spawned P) → List (Bool × Resumption P)
  turns [] = []
  turns (l ∷ ls) = turn l (turns ls)

  -- how the loop of a task stands
  abbrev pub outcome : Phase P → Result Ending
  outcome given_up = ok degraded
  outcome ended = ok stopped
  outcome (failed e) = err e
  outcome _ = ok running

  -- a task that is about to test the condition of its loop
  abbrev IsReady : Phase P → Type 0
  IsReady at_loop = Unit
  IsReady (backing_off delay) = Unit
  IsReady _ = ⊥

  -- a task that is over stays so
  abbrev IsOver : Phase P → Type 0
  IsOver given_up = Unit
  IsOver (failed e) = Unit
  IsOver _ = ⊥

  turn_lem :
      (policy : Policy) (l : Spawned P) (rest : List (Bool × Resumption P)) (c : Child)
      (phase : Phase P)
      → IsReady phase
      → alone policy (turn l rest) (record { child = c; phase = phase })
        ≡ alone policy rest (turned c (child_exited policy (as_run l) c))
  unfolding alone resume_task
  turn_lem policy (none, at, r) rest c at_loop ready = refl
  turn_lem policy (none, at, r) rest c (backing_off delay) ready = refl
  turn_lem policy (some process, at, r) rest c at_loop ready = refl
  turn_lem policy (some process, at, r) rest c (backing_off delay) ready = refl
  turn_lem policy l rest c (spawning at) ready = absurd ready
  turn_lem policy l rest c (waiting at process) ready = absurd ready
  turn_lem policy l rest c given_up ready = absurd ready
  turn_lem policy l rest c ended ready = absurd ready
  turn_lem policy l rest c (cancelled left) ready = absurd ready
  turn_lem policy l rest c (failed e) ready = absurd ready

  over_turn :
      (policy : Policy) (l : Spawned P) (rest : List (Bool × Resumption P)) (c : Child)
      (phase : Phase P)
      → IsOver phase
      → alone policy (turn l rest) (record { child = c; phase = phase })
        ≡ alone policy rest (record { child = c; phase = phase })
  unfolding alone resume_task
  over_turn policy (none, at, r) rest c given_up over = refl
  over_turn policy (none, at, r) rest c (failed e) over = refl
  over_turn policy (some process, at, r) rest c given_up over = refl
  over_turn policy (some process, at, r) rest c (failed e) over = refl
  over_turn policy l rest c at_loop over = absurd over
  over_turn policy l rest c (spawning at) over = absurd over
  over_turn policy l rest c (waiting at process) over = absurd over
  over_turn policy l rest c (backing_off delay) over = absurd over
  over_turn policy l rest c ended over = absurd over
  over_turn policy l rest c (cancelled left) over = absurd over

  over_turns :
      (policy : Policy) (ls : List (Spawned P)) (c : Child) (phase : Phase P)
      → IsOver phase
      → (alone policy (turns ls) (record { child = c; phase = phase })).phase ≡ phase
  over_turns policy [] c phase over = unfold alone in refl
  over_turns policy (l ∷ ls) c phase over =
      ap (λ t. t.phase) (over_turn policy l (turns ls) c phase over)
      ∙ over_turns policy ls c phase over

  -- the rest of the loop behind a turn
  abbrev behind :
      Policy → List (Spawned P) → Run → Result (Decision × Child) → Result (List ℕ × Ending)
  behind policy ls run r = r >>= λ d. next_turn run d.0 (supervise_child policy d.1 (map as_run ls))

  -- A turn gives the child up, fails, or waits and goes on, in both views.
  turned_lem :
      (policy : Policy) (l : Spawned P) (ls : List (Spawned P)) (c : Child)
      → ((c' : Child) (delay : ℕ)
          → outcome
              (alone policy (turns ls) (record { child = c'; phase = backing_off delay })).phase
            ≡ ending (supervise_child policy c' (map as_run ls)))
      → (r : Result (Decision × Child))
      → outcome (alone policy (turns ls) (turned c r)).phase
        ≡ ending (behind policy ls (as_run l) r)
  turned_lem policy l ls c further (err e) = ap outcome (over_turns policy ls c (failed e) tt)
  turned_lem policy l ls c further (ok (degrade, c')) =
      ap outcome (over_turns policy ls c' given_up tt)
  turned_lem policy l ls c further (ok (back_off delay, c')) =
      further c' delay ∙ sym (ending-wait_first delay (supervise_child policy c' (map as_run ls)))

  turns_lem :
      (policy : Policy) (ls : List (Spawned P)) (c : Child) (phase : Phase P)
      → IsReady phase
      → outcome (alone policy (turns ls) (record { child = c; phase = phase })).phase
        ≡ ending (supervise_child policy c (map as_run ls))
  unfolding alone supervise_child
  turns_lem policy [] c phase ready = ground arith
  turns_lem policy (l ∷ ls) c phase ready =
      ap (λ t. outcome t.phase) (turn_lem policy l (turns ls) c phase ready)
      ∙ turned_lem policy l ls c (λ c' delay. turns_lem policy ls c' (backing_off delay) tt)
          (child_exited policy (as_run l) c)

-- If the steps of one child, among any steps of the others, are those of a list of runs, with no shutdown
-- between them, then its task stands as the loop over these runs ends: given up where the loop degrades,
-- failed where it raises, and on its way to the next run otherwise.
pub run-supervise_child :
    {P : Type 0} (policy : Policy) (specs : List ChildSpec) (name : Text) (es : List (Event P))
    (ls : List (Spawned P))
    → get (start {P = P} specs).tasks name ≡ some (record { child = fresh; phase = at_loop })
    → own name false es ≡ turns ls
    → (t : Task P) × (get (run policy es (start specs)).tasks name ≡ some t)
      × (outcome t.phase ≡ ending (supervise_child policy fresh (map as_run ls)))
run-supervise_child policy specs name es ls here steps = (
  alone policy (turns ls) (record { child = fresh; phase = at_loop }),
  run-alone policy name es (start specs)
      ∙ ap (alone_at policy (own name false es)) here
      ∙ ap (λ rs. some (alone policy rs (record { child = fresh; phase = at_loop }))) steps,
  turns_lem policy ls fresh at_loop tt,
)
