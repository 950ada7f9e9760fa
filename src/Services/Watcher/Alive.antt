-- ===== src/Services/Watcher/Alive.antt =====
-- src/file_monitor/services/watcher.py: a path that was seen is passed on.
use file_monitor.Prelude.{
  ℕ, ◌+◌, ◌≤◌, ◌<◌, ◌≡◌, ◌≢◌, refl, sym, ap, subst, ◌∙◌, Bool, true, false, ◌&&◌, ◌||◌, Option,
  none, some, List, [], ◌∷◌, ◌++◌, arith, leb, if◌then◌else◌, Bool-cases, inl, inr, ◌⊎◌,
}
use file_monitor.Python.Equality.{Eq, ◌==◌, nat_eq, eq_refl}
use file_monitor.Python.Dict.{Dict, get, put, get-put, get-remove}
use file_monitor.Services.Watcher.{
  Timer, DirectoryWatcher, init, cancel, debounce, settle, emit, emit_when_stable,
}
use file_monitor.Services.Watcher.Quiet.{
  Happening, sees, fires, IsValid, after, last_event, after-IsValid, debounce-after, cancel-kept,
  new_or_old, kept-remove,
}

module _ {Key : Type 0} ⦃e : Eq Key⦄ where
  -- A pending task is that of its path.
  record IsOwned (w : DirectoryWatcher Key) : Type 0 where
    pub created : (k : Key) (t : ℕ) → get w.pending k ≡ some t → t < w.created
    pub path :
        (k : Key) (t : ℕ) (timer : Timer Key)
        → get w.pending k ≡ some t
        → get w.timers t ≡ some timer
        → timer.path ≡ k

  init-IsOwned : (d : ℕ) → IsOwned (init d)
  unfolding get
  init-IsOwned d = record { created = λ k t h. absurd (cc); path = λ k t timer h. absurd (cc) }

  -- a key is the new one, or was there before
  new_or_kept :
      (d : Dict Key ℕ) (path k : Key) (c t : ℕ)
      → get (put d path c) k ≡ some t
      → ((path ≡ k) × (t ≡ c)) ⊎ (get d k ≡ some t)
  new_or_kept d path k c t h = ground (arith, get-put d path k c, e.beq_iff path k)

  debounce-IsOwned :
      (now : ℕ) (path : Key) (latest : Key → Option ℕ) (w : DirectoryWatcher Key)
      → IsValid latest w
      → IsOwned w
      → IsOwned (debounce now path w)
  unfolding debounce
  debounce-IsOwned now path latest w v o = record {
    created = λ k t h. elim (new_or_kept w.pending path k w.created t h) [
      | inl (same, is_new) ↦ omega (arith, is_new)
      | inr old ↦ omega (arith, o.created k t old)
    ];
    path = λ k t timer h there.
        elim (new_or_old (cancel (get w.pending path) w.timers) w.created t new timer there) [
          | inl (is_new, same) ↦ elim (new_or_kept w.pending path k w.created t h) [
            | inl (same_key, is_c) ↦ ap (λ x. x.path) same ∙ same_key
            | inr old ↦ absurd (below t (o.created k t old) is_new)
          ]
          | inr kept ↦ elim (new_or_kept w.pending path k w.created t h) [
            | inl (same_key, is_c) ↦
                let here = (cancel-kept (get w.pending path) w.timers t timer kept).0 in
                absurd (below t (o.created timer.path t (v.is_pending t timer here)) is_c)
            | inr old ↦
                o.path k t timer old (cancel-kept (get w.pending path) w.timers t timer kept).0
          ]
        ];
  }
    where
      new : Timer Key
      new = record { path = path; due = now + w.debounce }

      below : (t : ℕ) → t < w.created → t ≢ w.created
      below t h = λ k. omega (arith, h, k)

  settle-kept :
      (o : Option ℕ) (task : ℕ) (path k : Key) (d : Dict Key ℕ) (t : ℕ)
      → get (settle o task path d) k ≡ some t
      → get d k ≡ some t
  settle-kept none task path k d t h = h
  settle-kept (some current) task path k d t h = ground (arith, get-remove d path k)

  emit-IsOwned :
      (now task : ℕ) (o : Option (Timer Key)) (w : DirectoryWatcher Key)
      → IsOwned w
      → IsOwned (emit now task o w)
  emit-IsOwned now task none w v = v
  emit-IsOwned now task (some timer) w v = elim (Bool-cases (leb timer.due now)) [
    | inr early ↦ rw early v
    | inl over ↦ rw over (record {
      created = λ k t h.
          v.created k t (settle-kept (get w.pending timer.path) task timer.path k w.pending t h);
      path = λ k t timer' h there.
          v.path k t timer' (settle-kept (get w.pending timer.path) task timer.path k w.pending t h)
            (kept-remove w.timers task t timer' there).0;
    })
  ]

  after-IsOwned : (d : ℕ) (h : List (Happening Key)) → IsOwned (after d h)
  unfolding after emit_when_stable
  after-IsOwned d [] = init-IsOwned d
  after-IsOwned d (sees now path ∷ h) =
      debounce-IsOwned now path (last_event h) (after d h) (after-IsValid d h) (after-IsOwned d h)
  after-IsOwned d (fires now task ∷ h) =
      emit-IsOwned now task (get (after d h).timers task) (after d h) (after-IsOwned d h)

  -- Does the end of a sleep with this timer at `now` pass the path on?
  abbrev passes : ℕ → Key → Option (Timer Key) → Bool
  passes now p none = false
  passes now p (some timer) = timer.path == p && leb timer.due now

  -- Was the path passed on since its latest event? The latest step of the history comes first.
  abbrev pub is_passed_on : ℕ → List (Happening Key) → Key → Bool
  is_passed_on d [] p = false
  is_passed_on d (sees now path ∷ h) p = if path == p then false else is_passed_on d h p
  is_passed_on d (fires now task ∷ h) p =
      passes now p (get (after d h).timers task) || is_passed_on d h p

  -- a task that sleeps for the path
  abbrev HasTask : DirectoryWatcher Key → Key → Type 0
  HasTask w p = (t : ℕ) × (timer : Timer Key) × (get w.timers t ≡ some timer) × (timer.path ≡ p)

  debounce-HasTask :
      (now : ℕ) (path : Key) (w : DirectoryWatcher Key) → HasTask (debounce now path w) path
  unfolding debounce
  debounce-HasTask now path w =
      let new : Timer Key = record { path = path; due = now + w.debounce } in
      (
        w.created,
        new,
        get-put (cancel (get w.pending path) w.timers) w.created w.created new
            ∙ rw (eq_refl w.created) refl,
        refl,
      )

  cancel-keeps :
      (o : Option ℕ) (d : Dict ℕ (Timer Key)) (t : ℕ) → o ≢ some t → get (cancel o d) t ≡ get d t
  cancel-keeps none d t ne = refl
  cancel-keeps (some task) d t ne = ground (arith, get-remove d task t)

  put-keeps :
      (d : Dict ℕ (Timer Key)) (c t : ℕ) (new : Timer Key) → t < c → get (put d c new) t ≡ get d t
  put-keeps d c t new h = ground (arith, get-put d c t new)

  debounce-keeps :
      (now : ℕ) (path p : Key) (latest : Key → Option ℕ) (w : DirectoryWatcher Key)
      → IsValid latest w
      → IsOwned w
      → path ≢ p
      → HasTask w p
      → HasTask (debounce now path w) p
  unfolding debounce
  debounce-keeps now path p latest w v o apart (t, timer, here, is_path) =
      let pending = v.is_pending t timer here in
      (
        t,
        timer,
        put-keeps (cancel (get w.pending path) w.timers) w.created t _
              (o.created timer.path t pending)
            ∙ cancel-keeps (get w.pending path) w.timers t
                (λ h. apart (sym (o.path path t timer h here) ∙ is_path))
            ∙ here,
        is_path,
      )

  emit-keeps :
      (now task : ℕ) (p : Key) (o : Option (Timer Key)) (w : DirectoryWatcher Key)
      → get w.timers task ≡ o
      → passes now p o ≡ false
      → HasTask w p
      → HasTask (emit now task o w) p
  emit-keeps now task p none w at_task stays has = has
  emit-keeps now task p (some timer) w at_task stays (t, timer', here, is_path) =
      elim (Bool-cases (leb timer.due now)) [
        | inr early ↦ rw early (t, timer', here, is_path)
        | inl over ↦
            rw over (
              t,
              timer',
              ground (arith, get-remove w.timers task t, e.beq_iff timer.path p),
              is_path,
            )
      ]

  -- A path that was seen was passed on since, or a task sleeps for it.
  seen-HasTask :
      (d : ℕ) (h : List (Happening Key)) (p : Key) (seen : ℕ)
      → last_event h p ≡ some seen
      → is_passed_on d h p ≡ false
      → HasTask (after d h) p
  unfolding after emit_when_stable
  seen-HasTask d [] p seen at stays = absurd (cc)
  seen-HasTask d (sees now path ∷ h) p seen at stays = elim (Bool-cases (path == p)) [
    | inl same ↦
        subst (HasTask (debounce now path (after d h))) ((e.beq_iff path p).0 same)
          (debounce-HasTask now path (after d h))
    | inr apart ↦
        debounce-keeps now path p (last_event h) (after d h) (after-IsValid d h) (after-IsOwned d h)
          (λ k. ground (arith, e.beq_iff path p))
          (seen-HasTask d h p seen (ground arith) (ground arith))
  ]
  seen-HasTask d (fires now task ∷ h) p seen at stays =
      emit-keeps now task p (get (after d h).timers task) (after d h) refl (ground arith)
        (seen-HasTask d h p seen at (ground arith))

  emit-passes :
      (now task : ℕ) (timer : Timer Key) (w : DirectoryWatcher Key)
      → timer.due ≤ now
      → (emit now task (some timer) w).stable_paths ≡ w.stable_paths ++ timer.path ∷ []
  emit-passes now task timer w over = ground arith

-- However events and ends of sleeps have come: a path that was seen has been passed on since its latest
-- event, or a task sleeps for it whose sleep ends a debounce interval after that event, and from then on
-- the end of this sleep passes the path on. No path that was seen is lost.
pub seen-passed_on :
    {Key : Type 0} ⦃e : Eq Key⦄ (d : ℕ) (h : List (Happening Key)) (p : Key) (seen : ℕ)
    → last_event h p ≡ some seen
    → (is_passed_on d h p ≡ true)
      ⊎ ((t : ℕ) × ((now : ℕ)
            → seen + d ≤ now
            → (emit_when_stable now t (after d h)).stable_paths
              ≡ (after d h).stable_paths ++ p ∷ []))
unfolding emit_when_stable
seen-passed_on d h p seen at = elim (Bool-cases (is_passed_on d h p)) [
  | inl passed ↦ inl passed
  | inr stays ↦
      let (t, timer, here, is_path) = seen-HasTask d h p seen at stays in
      let (latest, is_latest, due) = (after-IsValid d h).is_due t timer here in
      let same : some latest ≡ some seen = sym is_latest ∙ ap (last_event h) is_path ∙ at in
      let is_seen : latest ≡ seen = cc (same) in
      inr (
        t,
        λ now over.
            ap (λ o. (emit now t o (after d h)).stable_paths) here
            ∙ emit-passes now t timer (after d h)
                (omega (arith, due, debounce-after d h, is_seen, over))
            ∙ ap (λ q. (after d h).stable_paths ++ q ∷ []) is_path,
      )
]
