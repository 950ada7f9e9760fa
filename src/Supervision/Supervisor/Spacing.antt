-- ===== src/Supervision/Supervisor/Spacing.antt =====
-- src/file_monitor/supervision/supervisor.py: the whole loop, as steps, and how often it restarts.
use file_monitor.Prelude.{
  ℕ, suc, ◌+◌, ◌≤◌, ◌≡◌, refl, sym, subst, ap, ◌∙◌, true, false, some, List, [], ◌∷◌, arith,
  get_elem?, ltb, Result, ok, Bool-cases, inl, inr,
}
use file_monitor.Supervision.Supervisor.{
  Policy, Child, Run, last, Decision, degrade, back_off, delay_at, child_exited, fresh, Ending,
  running, degraded, stopped, supervise_child, next_turn,
}
use file_monitor.Supervision.Supervisor.History.{
  exits, earlier, child_after, is_crash_loop, recent, IsDecision, child_after-nil, child_exited_lem,
}

supervise_child-cons :
    (p : Policy) (run : Run) (runs : List Run) (c : Child) {r : Decision × Child}
    → run.stopping_at_exit ≡ false
    → child_exited p run c ≡ ok r
    → supervise_child p c (run ∷ runs) ≡ next_turn run r.0 (supervise_child p r.1 runs)
unfolding supervise_child
supervise_child-cons p run runs c on exited = rw (on, exited)

next_turn-restart :
    (p : Policy) (run : Run) (d : ℕ) (runs : List Run) {c c' : Child} {ds : List ℕ} {e : Ending}
    → run.stopping_after_wait ≡ false
    → c ≡ c'
    → supervise_child p c' runs ≡ ok (ds, e)
    → next_turn run (back_off d) (supervise_child p c runs) ≡ ok (d ∷ ds, e)
next_turn-restart p run d runs go same eq = rw (go, same, eq)

module _ (p : Policy) (limit longest : ℕ) where
  -- How the loop goes over runs, after a history: the delays that it waits for, and how it ends.
  pub data IsSupervised : List Run → List Run → List ℕ → Ending → Type 0 where
    over : {h : List Run} → IsSupervised h [] [] running
    stops_at_exit :
        {h runs : List Run} {run : Run}
        → run.stopping_at_exit ≡ true
        → IsSupervised h (run ∷ runs) [] stopped
    gives_up :
        {h runs : List Run} {run : Run}
        → run.stopping_at_exit ≡ false
        → is_crash_loop p limit run h ≡ true
        → IsSupervised h (run ∷ runs) [] degraded
    stops_waiting :
        {h runs : List Run} {run : Run} {d : ℕ}
        → run.stopping_at_exit ≡ false
        → is_crash_loop p limit run h ≡ false
        → delay_at p.backoff_schedule (earlier longest run h) ≡ some d
        → run.stopping_after_wait ≡ true
        → IsSupervised h (run ∷ runs) (d ∷ []) stopped
    restarts :
        {h runs : List Run} {run : Run} {d : ℕ} {ds : List ℕ} {e : Ending}
        → run.stopping_at_exit ≡ false
        → is_crash_loop p limit run h ≡ false
        → delay_at p.backoff_schedule (earlier longest run h) ≡ some d
        → run.stopping_after_wait ≡ false
        → IsSupervised (run ∷ h) runs ds e
        → IsSupervised h (run ∷ runs) (d ∷ ds) e

  abbrev pub Supervised : List Run → List Run → Result (List ℕ × Ending) → Type 0
  Supervised h runs r = (ds : List ℕ) × (e : Ending) × (r ≡ ok (ds, e)) × IsSupervised h runs ds e

  module _ (is_limit : p.crash_loop_max_restarts ≡ suc limit)
      (is_longest : last p.backoff_schedule ≡ some longest) where
    turn :
        (h runs : List Run) (run : Run) (r : Decision × Child)
        → run.stopping_at_exit ≡ false
        → IsDecision p limit longest run h r
        → Supervised (run ∷ h) runs (supervise_child p (child_after p longest (run ∷ h)) runs)
        → Supervised h (run ∷ runs) (next_turn run r.0 (supervise_child p r.1 runs))
    turn h runs run (degrade, c) on decision rest = ([], degraded, refl, gives_up on decision)
    turn h runs run (back_off d, c) on (quiet, found, same) (ds, e, eq, steps) =
        elim (Bool-cases run.stopping_after_wait) [
          | inl halt ↦ (d ∷ [], stopped, rw halt refl, stops_waiting on quiet found halt)
          | inr go ↦ (
            d ∷ ds,
            e,
            next_turn-restart p run d runs go same eq,
            restarts on quiet found go steps,
          )
        ]

    loop :
        (h runs : List Run) → Supervised h runs (supervise_child p (child_after p longest h) runs)
    unfolding supervise_child
    loop h [] = ([], running, refl, over)
    loop h (run ∷ runs) = elim (Bool-cases run.stopping_at_exit) [
      | inl halt ↦ ([], stopped, rw halt refl, stops_at_exit halt)
      | inr on ↦
          let (r, exited, decision) = child_exited_lem p limit longest run h is_limit is_longest in
          let (ds, e, eq, steps) = turn h runs run r on decision (loop (run ∷ h) runs) in
          (ds, e, supervise_child-cons p run runs _ on exited ∙ eq, steps)
    ]

-- With a limit above 0 and a schedule that is not empty, the loop over any runs of a child raises
-- nothing and goes as the steps say: it ends at a shutdown, gives the child up at the first crash
-- loop, and otherwise waits for the delay that the history asks for and starts the child again.
pub supervise_child_lem :
    (p : Policy) (limit longest : ℕ) (runs : List Run)
    → p.crash_loop_max_restarts ≡ suc limit
    → last p.backoff_schedule ≡ some longest
    → Supervised p limit longest [] runs (supervise_child p fresh runs)
supervise_child_lem p limit longest runs is_limit is_longest =
    subst (λ c. Supervised p limit longest [] runs (supervise_child p c runs))
      (child_after-nil p longest) (loop p limit longest is_limit is_longest [] runs)

-- Where there is an exit `limit` exits before one of the runs, it lies the whole window back.
abbrev pub Spaced : Policy → ℕ → List Run → List Run → Type 0
Spaced p limit h [] = Unit
Spaced p limit h (run ∷ runs) =
    ((t : ℕ)
      → get_elem? (exits (run ∷ h)) limit ≡ some t
      → t + p.crash_loop_window ≤ run.checked_at)
    × Spaced p limit (run ∷ h) runs

quiet-spaced :
    (p : Policy) (limit : ℕ) (run : Run) (h : List Run) (t : ℕ)
    → is_crash_loop p limit run h ≡ false
    → get_elem? (exits (run ∷ h)) limit ≡ some t
    → t + p.crash_loop_window ≤ run.checked_at
quiet-spaced p limit run h t quiet found =
    let old : ltb run.checked_at (t + p.crash_loop_window) ≡ false =
      ap (recent p run) (sym found) ∙ quiet in
    ground (arith, old)

IsSupervised-Spaced :
    (p : Policy) (limit longest : ℕ) {h runs : List Run} {ds : List ℕ} {e : Ending}
    → IsSupervised p limit longest h runs ds e
    → e ≡ running
    → Spaced p limit h runs
IsSupervised-Spaced p limit longest over h = tt
IsSupervised-Spaced p limit longest (stops_at_exit on) h = absurd (cc)
IsSupervised-Spaced p limit longest (gives_up on c) h = absurd (cc)
IsSupervised-Spaced p limit longest (stops_waiting on q f s) h = absurd (cc)
IsSupervised-Spaced p limit longest (restarts {h = past} {run = run} on quiet found go steps) e = (
  λ t here. quiet-spaced p limit run past t quiet here,
  IsSupervised-Spaced p limit longest steps e,
)

-- A child that is still being restarted after some runs never exited more often than the limit within
-- the window: at each of its exits, the exit as many exits back as the limit says, this one counted,
-- was at least the window ago.
pub supervise_child-Spaced :
    (p : Policy) (limit longest : ℕ) (runs : List Run) (delays : List ℕ)
    → p.crash_loop_max_restarts ≡ suc limit
    → last p.backoff_schedule ≡ some longest
    → supervise_child p fresh runs ≡ ok (delays, running)
    → Spaced p limit [] runs
supervise_child-Spaced p limit longest runs delays is_limit is_longest e =
    let (ds, ending, eq, steps) = supervise_child_lem p limit longest runs is_limit is_longest in
    IsSupervised-Spaced p limit longest steps (cc (e, eq))
