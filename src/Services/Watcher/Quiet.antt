-- ===== src/Services/Watcher/Quiet.antt =====
-- src/file_monitor/services/watcher.py: a path is passed on only when it has been quiet.
use file_monitor.Prelude.{
  ℕ, ◌+◌, ◌≤◌, ◌≡◌, ◌≢◌, refl, sym, ap, ◌∙◌, Option, none, some, List, [], ◌∷◌, ◌++◌, arith, leb,
  leb→le, if◌then◌else◌, Bool-cases, inl, inr, ◌⊎◌,
}
use file_monitor.Python.Equality.{Eq, ◌==◌, nat_eq, eq_refl}
use file_monitor.Python.Dict.{Dict, get, put, remove, get-put, get-remove}
use file_monitor.Services.Watcher.{
  Timer, DirectoryWatcher, init, cancel, debounce, settle, emit, emit_when_stable,
}

-- an event for a path, or the end of the sleep of a task
pub data Happening (Key : Type 0) : Type 0 where
  sees : (now : ℕ) (path : Key) → Happening Key
  fires : (now task : ℕ) → Happening Key

module _ {Key : Type 0} ⦃e : Eq Key⦄ where
  -- The timers are those of the pending tasks: a path has one at most, which ends a debounce interval
  -- after the latest event of the path.
  pub record IsValid (latest : Key → Option ℕ) (w : DirectoryWatcher Key) : Type 0 where
    pub unused : (t : ℕ) → w.created ≤ t → get w.timers t ≡ none
    pub is_pending :
        (t : ℕ) (timer : Timer Key)
        → get w.timers t ≡ some timer
        → get w.pending timer.path ≡ some t
    pub is_due :
        (t : ℕ) (timer : Timer Key)
        → get w.timers t ≡ some timer
        → (seen : ℕ) × (latest timer.path ≡ some seen) × (timer.due ≡ seen + w.debounce)

  abbrev seen_at : ℕ → Key → (Key → Option ℕ) → Key → Option ℕ
  seen_at now path latest p = if path == p then some now else latest p

  init-IsValid : (d : ℕ) → IsValid (λ p. none) (init d)
  unfolding get
  init-IsValid d = record {
    unused = λ t h. refl;
    is_pending = λ t timer h. absurd (cc);
    is_due = λ t timer h. absurd (cc);
  }

  pub cancel-kept :
      (o : Option ℕ) (d : Dict ℕ (Timer Key)) (t : ℕ) (timer : Timer Key)
      → get (cancel o d) t ≡ some timer
      → (get d t ≡ some timer) × (o ≢ some t)
  cancel-kept none d t timer h = (h, λ k. cc)
  cancel-kept (some task) d t timer h =
      (ground (arith, get-remove d task t), λ k. ground (arith, get-remove d task t))

  cancel-unused :
      (o : Option ℕ) (d : Dict ℕ (Timer Key)) (t : ℕ) → get d t ≡ none → get (cancel o d) t ≡ none
  cancel-unused none d t h = h
  cancel-unused (some task) d t h = ground (arith, get-remove d task t)

  -- a timer is the new one, or was there before
  pub new_or_old :
      (d : Dict ℕ (Timer Key)) (c t : ℕ) (new timer : Timer Key)
      → get (put d c new) t ≡ some timer
      → ((t ≡ c) × (timer ≡ new)) ⊎ (get d t ≡ some timer)
  new_or_old d c t new timer h = ground (arith, get-put d c t new)

  pending_elsewhere :
      (d : Dict Key ℕ) (path other : Key) (c t : ℕ)
      → get d other ≡ some t
      → get d path ≢ some t
      → get (put d path c) other ≡ some t
  pending_elsewhere d path other c t here ne =
      ground (arith, get-put d path other c, e.beq_iff path other)

  elsewhere_seen :
      (d : Dict Key ℕ) (now : ℕ) (path other : Key) (latest : Key → Option ℕ) (t : ℕ)
      → get d other ≡ some t
      → get d path ≢ some t
      → seen_at now path latest other ≡ latest other
  elsewhere_seen d now path other latest t here ne = ground (arith, e.beq_iff path other)

  debounce-IsValid :
      (now : ℕ) (path : Key) (latest : Key → Option ℕ) (w : DirectoryWatcher Key)
      → IsValid latest w
      → IsValid (seen_at now path latest) (debounce now path w)
  unfolding debounce
  debounce-IsValid now path latest w v = record {
    unused = λ t h.
        let old = cancel-unused (get w.pending path) w.timers t (v.unused t (omega arith)) in
        ground (arith, get-put (cancel (get w.pending path) w.timers) w.created t new);
    is_pending = λ t timer h.
        elim (new_or_old (cancel (get w.pending path) w.timers) w.created t new timer h) [
          | inl (is_new, same) ↦
              rw (is_new, same)
                (ground (arith, get-put w.pending path path w.created, eq_refl path))
          | inr old ↦
              let (kept, ne) = cancel-kept (get w.pending path) w.timers t timer old in
              pending_elsewhere w.pending path timer.path w.created t (v.is_pending t timer kept) ne
        ];
    is_due = λ t timer h.
        elim (new_or_old (cancel (get w.pending path) w.timers) w.created t new timer h) [
          | inl (is_new, same) ↦ rw same (now, rw (eq_refl path) refl, refl)
          | inr old ↦
              let (kept, ne) = cancel-kept (get w.pending path) w.timers t timer old in
              let (seen, at, due) = v.is_due t timer kept in
              (
                seen,
                elsewhere_seen w.pending now path timer.path latest t (v.is_pending t timer kept) ne
                    ∙ at,
                due,
              )
        ];
  }
    where
      new : Timer Key
      new = record { path = path; due = now + w.debounce }

  settle-other :
      (d : Dict Key ℕ) (task : ℕ) (path other : Key) (t : ℕ)
      → get d path ≡ some task
      → get d other ≡ some t
      → t ≢ task
      → get (settle (get d path) task path d) other ≡ some t
  settle-other d task path other t here there ne =
      ground (arith, get-remove d path other, e.beq_iff path other)

  pub kept-remove :
      (d : Dict ℕ (Timer Key)) (task t : ℕ) (timer : Timer Key)
      → get (remove d task) t ≡ some timer
      → (get d t ≡ some timer) × (t ≢ task)
  kept-remove d task t timer h =
      (ground (arith, get-remove d task t), λ k. ground (arith, get-remove d task t))

  unused-remove :
      (d : Dict ℕ (Timer Key)) (task t : ℕ) → get d t ≡ none → get (remove d task) t ≡ none
  unused-remove d task t h = ground (arith, get-remove d task t)

  emit-IsValid :
      (now task : ℕ) (latest : Key → Option ℕ) (w : DirectoryWatcher Key)
      → IsValid latest w
      → (o : Option (Timer Key)) → get w.timers task ≡ o
      → IsValid latest (emit now task o w)
  emit-IsValid now task latest w v none here = v
  emit-IsValid now task latest w v (some timer) here = elim (Bool-cases (leb timer.due now)) [
    | inr early ↦ rw early v
    | inl over ↦ rw over (record {
      unused = λ t h. unused-remove w.timers task t (v.unused t h);
      is_pending = λ t timer' h.
          let (kept, ne) = kept-remove w.timers task t timer' h in
          settle-other w.pending task timer.path timer'.path t (v.is_pending task timer here)
            (v.is_pending t timer' kept) ne;
      is_due = λ t timer' h. v.is_due t timer' (kept-remove w.timers task t timer' h).0;
    })
  ]

  -- The watcher after a history, whose latest step comes first.
  unfoldable pub after : ℕ → List (Happening Key) → DirectoryWatcher Key
  after d [] = init d
  after d (sees now path ∷ h) = debounce now path (after d h)
  after d (fires now task ∷ h) = emit_when_stable now task (after d h)

  -- when the latest event of a path was
  abbrev pub last_event : List (Happening Key) → Key → Option ℕ
  last_event [] p = none
  last_event (sees now path ∷ h) p = if path == p then some now else last_event h p
  last_event (fires now task ∷ h) p = last_event h p

  pub after-IsValid : (d : ℕ) (h : List (Happening Key)) → IsValid (last_event h) (after d h)
  unfolding after emit_when_stable
  after-IsValid d [] = init-IsValid d
  after-IsValid d (sees now path ∷ h) =
      debounce-IsValid now path (last_event h) (after d h) (after-IsValid d h)
  after-IsValid d (fires now task ∷ h) =
      emit-IsValid now task (last_event h) (after d h) (after-IsValid d h)
        (get (after d h).timers task) refl

  emit-debounce :
      (now task : ℕ) (o : Option (Timer Key)) (w : DirectoryWatcher Key)
      → (emit now task o w).debounce ≡ w.debounce
  emit-debounce now task none w = refl
  emit-debounce now task (some timer) w = ground arith

  pub debounce-after : (d : ℕ) (h : List (Happening Key)) → (after d h).debounce ≡ d
  unfolding after emit_when_stable debounce
  debounce-after d [] = refl
  debounce-after d (sees now path ∷ h) = debounce-after d h
  debounce-after d (fires now task ∷ h) =
      emit-debounce now task (get (after d h).timers task) (after d h) ∙ debounce-after d h

  -- what the end of a sleep at `now` does to a watcher `w` with the interval `d`
  pub record IsPassedOn (d now : ℕ) (latest : Key → Option ℕ) (w w' : DirectoryWatcher Key)
      : Type 0 where
    pub path : Key
    pub passed_on : w'.stable_paths ≡ w.stable_paths ++ path ∷ []
    pub seen : ℕ
    pub is_seen : latest path ≡ some seen
    pub quiet : seen + d ≤ now
    pub no_timer : (t : ℕ) (timer : Timer Key) → get w'.timers t ≡ some timer → timer.path ≢ path

  -- two timers of one path are one timer
  one_timer :
      (w : DirectoryWatcher Key) (latest : Key → Option ℕ) (v : IsValid latest w) (a b : ℕ)
      → (x y : Timer Key) → get w.timers a ≡ some x
      → get w.timers b ≡ some y
      → y.path ≡ x.path
      → b ≡ a
  one_timer w latest v a b x y at_a at_b same =
      let first = v.is_pending a x at_a in
      let second = v.is_pending b y at_b in
      let both : some b ≡ some a = sym second ∙ ap (λ p. get w.pending p) same ∙ first in
      ground (arith, both)

  passes_on :
      (d now task : ℕ) (latest : Key → Option ℕ) (w : DirectoryWatcher Key)
      → IsValid latest w
      → w.debounce ≡ d
      → (o : Option (Timer Key)) → get w.timers task ≡ o
      → (emit now task o w ≡ w) ⊎ IsPassedOn d now latest w (emit now task o w)
  passes_on d now task latest w v is_d none here = inl refl
  passes_on d now task latest w v is_d (some timer) here = elim (Bool-cases (leb timer.due now)) [
    | inr early ↦ inl (rw early refl)
    | inl over ↦
        let (seen, is_seen, due) = v.is_due task timer here in
        inr (
          rw over (record {
            path = timer.path;
            passed_on = refl;
            seen = seen;
            is_seen = is_seen;
            quiet = omega (arith, leb→le timer.due now over, due, is_d);
            no_timer = λ t timer' h same.
                let (kept, ne) = kept-remove w.timers task t timer' h in
                ne (one_timer w latest v task t timer timer' here kept same);
          }))
  ]

-- Whatever events a watcher has seen and whatever tasks have run before: the end of a sleep either
-- changes nothing, or passes one path on, whose latest event is at least the debounce interval ago, and
-- leaves no other sleeping task for that path.
pub emit_when_stable_lem :
    {Key : Type 0} ⦃e : Eq Key⦄ (d : ℕ) (h : List (Happening Key)) (now task : ℕ)
    → (emit_when_stable now task (after d h) ≡ after d h)
      ⊎ IsPassedOn d now (last_event h) (after d h) (emit_when_stable now task (after d h))
unfolding emit_when_stable
emit_when_stable_lem d h now task =
    passes_on d now task (last_event h) (after d h) (after-IsValid d h) (debounce-after d h)
      (get (after d h).timers task) refl
