-- ===== src/Supervision/Supervisor/Children/Alone.antt =====
-- src/file_monitor/supervision/supervisor.py: a child among others fares as it does alone.
use file_monitor.Prelude.{
  ◌≡◌, refl, sym, ap, subst, ◌∙◌, Bool, true, false, Option, none, some, List, [], ◌∷◌, arith,
  if◌then◌else◌, Bool-cases, inl, inr,
}
use file_monitor.Python.Text.{Text}
use file_monitor.Python.Equality.{◌==◌, nat_eq, list_eq, list_beq_iff, eq_refl}
use file_monitor.Python.Dict.{get, get-put}
use file_monitor.Supervision.Supervisor.{Policy, State, spawned, reaped}
use file_monitor.Supervision.Supervisor.Children.{
  Phase, Task, Resumption, Supervisor, resume_task, with_process, with_degraded, resume_with,
  resume, begin_unless, begin_shutdown, finish_shutdown,
}
use file_monitor.Supervision.Supervisor.Children.Reached.{
  Event, resumes, begins_shutdown, finishes_shutdown, step, run,
}

module _ {P : Type 0} where
  -- The resumptions of one child, each with `_stopping` at that time.
  abbrev pub own : Text → Bool → List (Event P) → List (Bool × Resumption P)
  own name stopping [] = []
  own name stopping (resumes n r ∷ es) =
      if n == name then (stopping, r) ∷ own name stopping es else own name stopping es
  own name stopping (begins_shutdown ∷ es) = own name true es
  own name stopping (finishes_shutdown ∷ es) = own name stopping es

  -- a task that is resumed again and again
  unfoldable pub alone : Policy → List (Bool × Resumption P) → Task P → Task P
  alone policy [] t = t
  alone policy ((stopping, r) ∷ rs) t = alone policy rs (resume_task policy stopping r t)

  abbrev pub alone_at : Policy → List (Bool × Resumption P) → Option (Task P) → Option (Task P)
  alone_at policy rs none = none
  alone_at policy rs (some t) = some (alone policy rs t)

  same_stopping :
      (r : Resumption P) (before after : Phase P) (name : Text) (s : State P)
      → (with_degraded name before after (with_process name r before s)).stopping ≡ s.stopping
  unfolding spawned reaped
  same_stopping r before after name s = ground arith

  resume_with-stopping :
      (policy : Policy) (name : Text) (r : Resumption P) (o : Option (Task P)) (s : Supervisor P)
      → (resume_with policy name r o s).shared.stopping ≡ s.shared.stopping
  resume_with-stopping policy name r none s = refl
  resume_with-stopping policy name r (some t) s =
      same_stopping r t.phase (resume_task policy s.shared.stopping r t).phase name s.shared

  begin_unless-stopping :
      (s : Supervisor P) (b : Bool)
      → s.shared.stopping ≡ b
      → (begin_unless b s).shared.stopping ≡ true
  begin_unless-stopping s true h = h
  begin_unless-stopping s false h = refl

  begin_unless-tasks : (b : Bool) (s : Supervisor P) → (begin_unless b s).tasks ≡ s.tasks
  begin_unless-tasks true s = refl
  begin_unless-tasks false s = refl

  other_task :
      (policy : Policy) (n name : Text) (r : Resumption P) (o : Option (Task P)) (s : Supervisor P)
      → (n == name) ≡ false
      → get (resume_with policy n r o s).tasks name ≡ get s.tasks name
  other_task policy n name r none s apart = refl
  other_task policy n name r (some t) s apart =
      get-put s.tasks n name (resume_task policy s.shared.stopping r t) ∙ rw apart refl

  own_task :
      (policy : Policy) (name : Text) (r : Resumption P) (o : Option (Task P)) (s : Supervisor P)
      → get s.tasks name ≡ o
      → get (resume_with policy name r o s).tasks name
        ≡ alone_at policy ((s.shared.stopping, r) ∷ []) o
  unfolding alone
  own_task policy name r none s here = here
  own_task policy name r (some t) s here =
      get-put s.tasks name name (resume_task policy s.shared.stopping r t) ∙ rw (eq_refl name) refl

  alone_at-cons :
      (policy : Policy) (b : Bool) (r : Resumption P) (rs : List (Bool × Resumption P))
      (o : Option (Task P))
      → alone_at policy rs (alone_at policy ((b, r) ∷ []) o) ≡ alone_at policy ((b, r) ∷ rs) o
  unfolding alone
  alone_at-cons policy b r rs none = refl
  alone_at-cons policy b r rs (some t) = refl

  alone_at-nil : (policy : Policy) (o : Option (Task P)) → alone_at policy [] o ≡ o
  unfolding alone
  alone_at-nil policy none = refl
  alone_at-nil policy (some t) = refl

  own-same :
      (n name : Text) (b : Bool) (r : Resumption P) (es : List (Event P))
      → (n == name) ≡ true
      → own name b (resumes n r ∷ es) ≡ (b, r) ∷ own name b es
  own-same n name b r es same = rw same refl

  own-apart :
      (n name : Text) (b : Bool) (r : Resumption P) (es : List (Event P))
      → (n == name) ≡ false
      → own name b (resumes n r ∷ es) ≡ own name b es
  own-apart n name b r es apart = rw apart refl

  -- Among others, a task goes through its own resumptions.
  pub run-alone :
      (policy : Policy) (name : Text) (es : List (Event P)) (s : Supervisor P)
      → get (run policy es s).tasks name
        ≡ alone_at policy (own name s.shared.stopping es) (get s.tasks name)
  unfolding run step resume begin_shutdown finish_shutdown
  run-alone policy name [] s = sym (alone_at-nil policy (get s.tasks name))
  run-alone policy name (begins_shutdown ∷ es) s =
      run-alone policy name es (begin_unless s.shared.stopping s)
      ∙ ap
          (λ b. alone_at policy (own name b es) (get (begin_unless s.shared.stopping s).tasks name))
          (begin_unless-stopping s s.shared.stopping refl)
      ∙ ap (λ d. alone_at policy (own name true es) (get d name))
          (begin_unless-tasks s.shared.stopping s)
  run-alone policy name (finishes_shutdown ∷ es) s = run-alone policy name es (finish_shutdown s)
  run-alone policy name (resumes n r ∷ es) s =
      let s' = resume_with policy n r (get s.tasks n) s in
      let later =
        run-alone policy name es s'
        ∙ ap (λ b. alone_at policy (own name b es) (get s'.tasks name))
            (resume_with-stopping policy n r (get s.tasks n) s) in
      elim (Bool-cases (n == name)) [
        | inl same ↦
            later
            ∙ ap (alone_at policy (own name s.shared.stopping es)) (
                subst
                  (λ m.
                    get s'.tasks m ≡ alone_at policy ((s.shared.stopping, r) ∷ []) (get s.tasks m))
                  ((list_beq_iff n name).0 same) (own_task policy n r (get s.tasks n) s refl))
            ∙ alone_at-cons policy s.shared.stopping r (own name s.shared.stopping es)
                (get s.tasks name)
            ∙ ap (λ l. alone_at policy l (get s.tasks name))
                (sym (own-same n name s.shared.stopping r es same))
        | inr apart ↦
            later
            ∙ ap (alone_at policy (own name s.shared.stopping es))
                (other_task policy n name r (get s.tasks n) s apart)
            ∙ ap (λ l. alone_at policy l (get s.tasks name))
                (sym (own-apart n name s.shared.stopping r es apart))
      ]
