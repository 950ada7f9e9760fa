-- ===== src/Main/Tasks/Halting.antt =====
-- src/file_monitor/main.py: a signal halts the task group of `run`, and what it exits with.
use file_monitor.Prelude.{
  ℕ, zero, suc, ◌≡◌, refl, sym, subst, ◌∙◌, ◌↔◌, Bool, true, false, ◌&&◌, ◌||◌, not, some,
  Option-cases, List, [], ◌∷◌, ◌++◌, map, null, length, ap, arith, inl, inr, Error,
}
use file_monitor.Main.Process.{exit_code_of}
use file_monitor.Main.Tasks.{
  TaskOutcome, returned, was_cancelled, raised, Status, running, cancelling, done, TaskGroup,
  started, cancel_task, cancel_workers, finish_worker, on_task_done, Event, signals, resumes_waiter,
  ends, step, run_group, cancel_workers_on_shutdown,
}

-- Does the task go on, without being asked to end?
abbrev pub goes_on : Status → Bool
goes_on running = true
goes_on t = false

-- No task goes on.
abbrev pub halted : List Status → Bool
halted [] = true
halted (t ∷ ts) = not (goes_on t) && halted ts

abbrev pub has_raised : Status → Bool
has_raised (done (raised error)) = true
has_raised t = false

-- A task has ended with an exception.
abbrev pub any_raised : List Status → Bool
any_raised [] = false
any_raised (t ∷ ts) = has_raised t || any_raised ts

-- The exceptions are those of the tasks; an exception halts the task that waits, and where that one
-- does not go on no worker does.
record IsValid (g : TaskGroup) : Type 0 where
  four : length g.worker_tasks ≡ 4
  accounted : null g.errors ≡ not (any_raised g.worker_tasks)
  aborted : null g.errors || not (goes_on g.waiter) ≡ true
  stopped : goes_on g.waiter || halted g.worker_tasks ≡ true

halted-map-cancel_task : (ts : List Status) → halted (map cancel_task ts) ≡ true
halted-map-cancel_task [] = refl
halted-map-cancel_task (t ∷ ts) = ground (arith, halted-map-cancel_task ts)

length-map-cancel_task : (ts : List Status) → length (map cancel_task ts) ≡ length ts
length-map-cancel_task [] = refl
length-map-cancel_task (t ∷ ts) = ap suc (length-map-cancel_task ts)

any_raised-map-cancel_task : (ts : List Status) → any_raised (map cancel_task ts) ≡ any_raised ts
any_raised-map-cancel_task [] = refl
any_raised-map-cancel_task (t ∷ ts) = ground (arith, any_raised-map-cancel_task ts)

goes_on-cancel_task : (t : Status) → goes_on (cancel_task t) ≡ false
goes_on-cancel_task t = ground arith

null-append : (es : List Error) (e : Error) → null (es ++ e ∷ []) ≡ false
null-append [] e = refl
null-append (e' ∷ es) e = refl

finish_worker-keeps :
    (i : ℕ) (outcome : TaskOutcome) (ts ts' : List Status)
    → finish_worker i outcome ts ≡ some ts'
    → (length ts' ≡ length ts)
      × (any_raised ts' ≡ (has_raised (done outcome) || any_raised ts))
      × (halted ts ≡ true → halted ts' ≡ true)
unfolding finish_worker
finish_worker-keeps i outcome [] ts' h = ground arith
finish_worker-keeps zero outcome (t ∷ ts) ts' h = ground arith
finish_worker-keeps (suc i) outcome (t ∷ ts) ts' h =
    elim (Option-cases (finish_worker i outcome ts)) [
      | inl nothing ↦ ground arith
      | inr (rest, here) ↦ ground (arith, finish_worker-keeps i outcome ts rest here)
    ]

started-IsValid : IsValid started
started-IsValid = record { four = refl; accounted = refl; aborted = refl; stopped = refl }

cancel_workers-IsValid :
    (t : Status) (g : TaskGroup) → g.waiter ≡ t → IsValid g → IsValid (cancel_workers t g)
cancel_workers-IsValid running g is_waiter v = record {
  four = ground (arith, v.four, length-map-cancel_task g.worker_tasks);
  accounted = ground (arith, v.accounted, any_raised-map-cancel_task g.worker_tasks);
  aborted = ground (arith, v.aborted);
  stopped = ground (arith, v.stopped, halted-map-cancel_task g.worker_tasks);
}
cancel_workers-IsValid cancelling g is_waiter v = record {
  four = v.four;
  accounted = v.accounted;
  aborted = ground arith;
  stopped = ground (arith, v.stopped);
}
cancel_workers-IsValid (done outcome) g is_waiter v = v

-- where a worker has ended without an exception
ended-IsValid :
    (i : ℕ) (outcome : TaskOutcome) (g : TaskGroup) (ts : List Status)
    → finish_worker i outcome g.worker_tasks ≡ some ts
    → has_raised (done outcome) ≡ false
    → IsValid g
    → IsValid (record g { worker_tasks = ts })
ended-IsValid i outcome g ts h quiet v =
    let (as_many, raised_by, still_halted) = finish_worker-keeps i outcome g.worker_tasks ts h in
    record {
      four = as_many ∙ v.four;
      accounted = ground (arith, v.accounted);
      aborted = v.aborted;
      stopped = ground (arith, v.stopped);
    }

finished-IsValid :
    (i : ℕ) (outcome : TaskOutcome) (g : TaskGroup) (ts : List Status)
    → finish_worker i outcome g.worker_tasks ≡ some ts
    → IsValid g
    → IsValid (on_task_done outcome (record g { worker_tasks = ts }))
finished-IsValid i returned g ts h v = ended-IsValid i returned g ts h refl v
finished-IsValid i was_cancelled g ts h v = ended-IsValid i was_cancelled g ts h refl v
finished-IsValid i (raised error) g ts h v =
    let (as_many, raised_by, still_halted) =
      finish_worker-keeps i (raised error) g.worker_tasks ts h in
    record {
      four = length-map-cancel_task ts ∙ as_many ∙ v.four;
      accounted = ground (arith, null-append g.errors error, any_raised-map-cancel_task ts);
      aborted = ground (arith, goes_on-cancel_task g.waiter);
      stopped = ground (arith, halted-map-cancel_task ts);
    }

step-IsValid : (e : Event) (g : TaskGroup) → IsValid g → IsValid (step e g)
unfolding step cancel_workers_on_shutdown
step-IsValid signals g v = record {
  four = v.four;
  accounted = v.accounted;
  aborted = v.aborted;
  stopped = v.stopped;
}
step-IsValid resumes_waiter g v = cancel_workers-IsValid g.waiter g refl v
step-IsValid (ends i outcome) g v = elim (Option-cases (finish_worker i outcome g.worker_tasks)) [
  | inl nothing ↦ rw nothing v
  | inr (ts, here) ↦ rw here (finished-IsValid i outcome g ts here v)
]

run_group-IsValid : (es : List Event) (g : TaskGroup) → IsValid g → IsValid (run_group es g)
unfolding run_group
run_group-IsValid [] g v = v
run_group-IsValid (e ∷ es) g v = run_group-IsValid es (step e g) (step-IsValid e g v)

-- A waiter that does not go on does not go on again.
step-waiter :
    (e : Event) (g : TaskGroup) → goes_on g.waiter ≡ false → goes_on (step e g).waiter ≡ false
unfolding step cancel_workers_on_shutdown
step-waiter signals g h = h
step-waiter resumes_waiter g h = ground arith
step-waiter (ends i outcome) g h = ground arith

run_group-waiter :
    (es : List Event) (g : TaskGroup)
    → goes_on g.waiter ≡ false
    → goes_on (run_group es g).waiter ≡ false
unfolding run_group
run_group-waiter [] g h = h
run_group-waiter (e ∷ es) g h = run_group-waiter es (step e g) (step-waiter e g h)

run_group-append :
    (es es' : List Event) (g : TaskGroup) → run_group (es ++ es') g ≡ run_group es' (run_group es g)
unfolding run_group
run_group-append [] es' g = refl
run_group-append (e ∷ es) es' g = run_group-append es es' (step e g)

shut_down : (g : TaskGroup) → goes_on (step resumes_waiter (step signals g)).waiter ≡ false
unfolding step cancel_workers_on_shutdown
shut_down g = ground arith

-- Whatever has happened before a signal and whatever happens after it: as soon as the task that waits
-- for it has been resumed, neither that task nor any of the four
-- workers goes on without having been asked to end; and
-- the status that `run` exits with is 0 exactly if no worker has ended with an exception.
pub run_group-halted :
    (es es' : List Event)
    → (let g : TaskGroup = run_group (es ++ signals ∷ resumes_waiter ∷ es') started in
        (goes_on g.waiter ≡ false)
        × (length g.worker_tasks ≡ 4)
        × (halted g.worker_tasks ≡ true)
        × ((exit_code_of g.errors ≡ 0) ↔ (any_raised g.worker_tasks ≡ false)))
unfolding run_group
run_group-halted es es' =
    let g = run_group (es ++ signals ∷ resumes_waiter ∷ es') started in
    let v = run_group-IsValid (es ++ signals ∷ resumes_waiter ∷ es') started started-IsValid in
    let gone =
      subst (λ g. goes_on g.waiter ≡ false)
        (sym (run_group-append es (signals ∷ resumes_waiter ∷ es') started))
        (run_group-waiter es' (step resumes_waiter (step signals (run_group es started)))
          (shut_down (run_group es started))) in
    (
      gone,
      v.four,
      ground (arith, v.stopped, gone),
      ((λ zero_status. ground (arith, v.accounted)), (λ none_raised. ground (arith, v.accounted))),
    )
