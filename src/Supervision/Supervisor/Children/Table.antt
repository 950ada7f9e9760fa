-- ===== src/Supervision/Supervisor/Children/Table.antt =====
-- src/file_monitor/supervision/supervisor.py: the table of processes holds the processes that run, and the
-- set of degraded names the children that were given up.
use file_monitor.Prelude.{
  ℕ, ◌≡◌, refl, sym, ap, subst, ◌∙◌, Bool, true, false, ◌||◌, Option, none, some, List, arith,
  Bool-cases, inl, inr, ok, err, Result,
}
use file_monitor.Python.Text.{Text}
use file_monitor.Python.Equality.{◌==◌, nat_eq, list_eq, list_beq_iff, eq_refl}
use file_monitor.Python.Dict.{Dict, get, put, get-put, get-remove}
use file_monitor.Supervision.Supervisor.{
  Policy, Child, Decision, degrade, back_off, State, spawned, reaped,
}
use file_monitor.Supervision.Supervisor.Children.{
  Phase, spawning, waiting, given_up, cancelled, Task, Readings, Resumption, goes_on, spawns,
  fails_to_spawn, exits, is_cancelled, Supervisor, has, add, turned, behind_exit, begin_turn,
  resume_at, resume_task, with_process, with_degraded, resume_with, is_degraded,
}

has-add :
    (name other : Text) (names : List Text)
    → has other (add name names) ≡ (name == other || has other names)
has-add name other names = elim (Bool-cases (has name names)) [
  | inl there ↦ rw there (ground (arith, list_beq_iff name other))
  | inr new ↦ rw new refl
]

module _ {P : Type 0} where
  -- the process that a task has started and has not seen the end of
  abbrev pub process_of : Phase P → Option P
  process_of (waiting started_at process) = some process
  process_of (cancelled left) = left
  process_of _ = none

  abbrev pub is_given_up : Phase P → Bool
  is_given_up given_up = true
  is_given_up _ = false

  abbrev pub process_at : Option (Task P) → Option P
  process_at none = none
  process_at (some t) = process_of t.phase

  abbrev pub given_up_at : Option (Task P) → Bool
  given_up_at none = false
  given_up_at (some t) = is_given_up t.phase

  -- The table holds, under its name, the process of every child that has one, and nothing else; the
  -- degraded names are those of the children that were given up.
  pub record IsValid (s : Supervisor P) : Type 0 where
    pub processes : (name : Text) → get s.shared.processes name ≡ process_at (get s.tasks name)
    pub degraded : (name : Text) → is_degraded name s.shared ≡ given_up_at (get s.tasks name)

  turned-process_of :
      (c : Child) (r : Result (Decision × Child)) → process_of (turned {P = P} c r).phase ≡ none
  turned-process_of c (err e) = refl
  turned-process_of c (ok (degrade, c')) = refl
  turned-process_of c (ok (back_off delay, c')) = refl

  behind_exit-process_of :
      (policy : Policy) (stopping : Bool) (at : ℕ) (r : Readings) (c : Child)
      → process_of (behind_exit {P = P} policy stopping at r c).phase ≡ none
  behind_exit-process_of policy true at r c = refl
  behind_exit-process_of policy false at r c = turned-process_of c _

  begin_turn-process_of :
      (stopping : Bool) (now : ℕ) (c : Child)
      → process_of (begin_turn {P = P} stopping now c).phase ≡ none
  begin_turn-process_of true now c = refl
  begin_turn-process_of false now c = refl

  -- The table follows the task that is resumed.
  own_process :
      (policy : Policy) (stopping : Bool) (r : Resumption P) (c : Child) (phase : Phase P)
      (name : Text)
      → (s : State P) → get s.processes name ≡ process_of phase
      → get (with_process name r phase s).processes name
        ≡ process_of (resume_at policy stopping r c phase).phase
  unfolding spawned reaped
  own_process policy stopping (goes_on now) c phase name s h =
      ground (arith, begin_turn-process_of stopping now c)
  own_process policy stopping (spawns process) c phase name s h =
      ground (arith, get-put s.processes name name process, eq_refl name)
  own_process policy stopping (fails_to_spawn r) c (spawning at) name s h =
      h ∙ sym (behind_exit-process_of policy stopping at r c)
  own_process policy stopping (fails_to_spawn r) c _ name s h = h
  own_process policy stopping (exits r) c (waiting at process) name s h =
      ground (arith, get-remove s.processes name name, eq_refl name)
      ∙ sym (behind_exit-process_of policy stopping at r c)
  own_process policy stopping (exits r) c _ name s h = h
  own_process policy stopping is_cancelled c phase name s h = ground arith

  other_process :
      (r : Resumption P) (phase : Phase P) (name other : Text) (s : State P)
      → (name == other) ≡ false
      → get (with_process name r phase s).processes other ≡ get s.processes other
  unfolding spawned reaped
  other_process (spawns process) (spawning at) name other s apart =
      ground (arith, get-put s.processes name other process)
  other_process (exits r) (waiting at process) name other s apart =
      ground (arith, get-remove s.processes name other)
  other_process r phase name other s apart = refl

  own_degraded :
      (before after : Phase P) (name : Text) (s : State P)
      → is_degraded name s ≡ is_given_up before
      → (is_given_up before ≡ true → is_given_up after ≡ true)
      → is_degraded name (with_degraded name before after s) ≡ is_given_up after
  unfolding is_degraded
  own_degraded before after name s h stays =
      ground (arith, has-add name name s.degraded_names, eq_refl name)

  other_degraded :
      (before after : Phase P) (name other : Text) (s : State P)
      → (name == other) ≡ false
      → is_degraded other (with_degraded name before after s) ≡ is_degraded other s
  unfolding is_degraded
  other_degraded before after name other s apart =
      ground (arith, has-add name other s.degraded_names)

  same_names :
      (r : Resumption P) (phase : Phase P) (name other : Text) (s : State P)
      → is_degraded other (with_process name r phase s) ≡ is_degraded other s
  unfolding is_degraded spawned reaped
  same_names r phase name other s = ground arith

  same_processes :
      (before after : Phase P) (name : Text) (s : State P)
      → (with_degraded name before after s).processes ≡ s.processes
  same_processes before after name s = ground arith

  stays_given_up :
      (policy : Policy) (stopping : Bool) (r : Resumption P) (c : Child) (phase : Phase P)
      → is_given_up phase ≡ true
      → is_given_up (resume_at policy stopping r c phase).phase ≡ true
  stays_given_up policy stopping r c phase h = ground arith

  -- What is read of each task, and follows the task that is resumed, is read of each task afterwards.
  follow :
      {X : Type 0} (look : Option (Task P) → X) (f f' : Text → X) (tasks : Dict Text (Task P))
      (name : Text) (t' : Task P)
      → ((n : Text) → f n ≡ look (get tasks n))
      → f' name ≡ look (some t')
      → ((n : Text) → (name == n) ≡ false → f' n ≡ f n)
      → (n : Text) → f' n ≡ look (get (put tasks name t') n)
  follow look f f' tasks name t' before own others n = elim (Bool-cases (name == n)) [
    | inl same ↦
        let here : get (put tasks name t') n ≡ some t' = get-put tasks name n t' ∙ rw same refl in
        subst (λ m. f' m ≡ look (some t')) ((list_beq_iff name n).0 same) own ∙ ap look (sym here)
    | inr apart ↦
        let there : get (put tasks name t') n ≡ get tasks n =
          get-put tasks name n t' ∙ rw apart refl in
        others n apart ∙ before n ∙ ap look (sym there)
  ]

  pub resume_with-IsValid :
      (policy : Policy) (name : Text) (r : Resumption P) (s : Supervisor P)
      → IsValid s
      → (o : Option (Task P)) → get s.tasks name ≡ o
      → IsValid (resume_with policy name r o s)
  unfolding resume_task
  resume_with-IsValid policy name r s v none here = v
  resume_with-IsValid policy name r s v (some t) here =
      let t' = resume_at policy s.shared.stopping r t.child t.phase in
      let shared' = with_process name r t.phase s.shared in
      record {
        processes =
            follow process_at (get s.shared.processes)
              (get (with_degraded name t.phase t'.phase shared').processes) s.tasks name t'
              v.processes
              (ap (λ d. get d name) (same_processes t.phase t'.phase name shared')
                ∙ own_process policy s.shared.stopping r t.child t.phase name s.shared
                    (v.processes name ∙ ap process_at here))
              (λ n apart.
                ap (λ d. get d n) (same_processes t.phase t'.phase name shared')
                ∙ other_process r t.phase name n s.shared apart);
        degraded =
            follow given_up_at (λ n. is_degraded n s.shared)
              (λ n. is_degraded n (with_degraded name t.phase t'.phase shared')) s.tasks name t'
              v.degraded
              (own_degraded t.phase t'.phase name shared'
                (same_names r t.phase name name s.shared ∙ v.degraded name ∙ ap given_up_at here)
                (stays_given_up policy s.shared.stopping r t.child t.phase))
              (λ n apart.
                other_degraded t.phase t'.phase name n shared' apart
                ∙ same_names r t.phase name n s.shared);
      }
