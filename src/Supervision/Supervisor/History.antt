-- ===== src/Supervision/Supervisor/History.antt =====
-- src/file_monitor/supervision/supervisor.py: what the loop decides, against the runs so far.
use file_monitor.Prelude.{
  ℕ, zero, suc, ◌+◌, ◌<◌, ◌≡◌, ◌≢◌, refl, sym, ap, ◌∙◌, Bool, true, false, Option, none, some, List,
  [], ◌∷◌, map, ltb, arith, if◌then◌else◌, length, get_elem?, ok, Option-cases, inl, inr,
}
use file_monitor.Supervision.Supervisor.{
  Policy, Child, Run, bounded, oldest, last, Decision, degrade, back_off, in_crash_loop, delay_at,
  decide, child_exited, fresh,
}

-- The exits of a history of runs, whose latest comes first.
abbrev pub exits : List Run → List ℕ
exits h = map (λ run. run.exited_at) h

-- a run that outlasts the longest delay
abbrev pub is_long : ℕ → Run → Bool
is_long longest run = ltb (run.started_at + longest) run.uptime_read_at

-- How many runs there were since the last long one, that one counted.
abbrev pub streak : ℕ → List Run → ℕ
streak longest [] = 0
streak longest (run ∷ h) = suc (if is_long longest run then 0 else streak longest h)

-- how many of those runs came before `run`
abbrev pub earlier : ℕ → Run → List Run → ℕ
earlier longest run h = if is_long longest run then 0 else streak longest h

-- the local variables after a history
abbrev pub child_after : Policy → ℕ → List Run → Child
child_after p longest h = record {
  consecutive_failures = streak longest h;
  exit_timestamps = bounded p.crash_loop_max_restarts (exits h);
}

abbrev pub recent : Policy → Run → Option ℕ → Bool
recent p run none = false
recent p run (some t) = ltb run.checked_at (t + p.crash_loop_window)

-- Is there an exit `limit` exits before this one, and does it lie in the window?
abbrev pub is_crash_loop : Policy → ℕ → Run → List Run → Bool
is_crash_loop p limit run h = recent p run (get_elem? (exits (run ∷ h)) limit)

bounded-nil : (n : ℕ) → bounded n [] ≡ []
bounded-nil zero = refl
bounded-nil (suc n) = refl

-- the local variables that the loop starts with
pub child_after-nil : (p : Policy) (longest : ℕ) → child_after p longest [] ≡ fresh
child_after-nil p longest =
    ap (λ (xs : List ℕ). record { consecutive_failures = 0; exit_timestamps = xs })
      (bounded-nil p.crash_loop_max_restarts)

bounded-bounded-suc : (n : ℕ) (xs : List ℕ) → bounded n (bounded (suc n) xs) ≡ bounded n xs
bounded-bounded-suc zero xs = refl
bounded-bounded-suc (suc n) [] = refl
bounded-bounded-suc (suc n) (x ∷ xs) = ap (λ l. x ∷ l) (bounded-bounded-suc n xs)

-- A deque that holds `suc n` entries is full exactly if there is an entry `n` places back, which is
-- then its oldest.
bounded-full :
    (n : ℕ) (xs : List ℕ) (t : ℕ)
    → get_elem? xs n ≡ some t
    → (length (bounded (suc n) xs) ≡ suc n) × (get_elem? (bounded (suc n) xs) n ≡ some t)
bounded-full zero [] t e = absurd (cc)
bounded-full zero (x ∷ xs) t e = (refl, e)
bounded-full (suc n) [] t e = absurd (cc)
bounded-full (suc n) (x ∷ xs) t e = let (len, found) = bounded-full n xs t e in (ap suc len, found)

bounded-room : (n : ℕ) (xs : List ℕ) → get_elem? xs n ≡ none → length (bounded (suc n) xs) < suc n
bounded-room zero [] e = omega arith
bounded-room zero (x ∷ xs) e = absurd (cc)
bounded-room (suc n) [] e = omega arith
bounded-room (suc n) (x ∷ xs) e = omega (arith, bounded-room n xs e)

oldest-full : (n : ℕ) (xs : List ℕ) → length xs ≡ suc n → oldest xs ≡ get_elem? xs n
oldest-full n xs e = ap (get_elem? xs) (omega arith)

in_crash_loop_lem :
    (p : Policy) (limit : ℕ) (run : Run) (xs : List ℕ)
    → p.crash_loop_max_restarts ≡ suc limit
    → in_crash_loop p run (bounded (suc limit) xs) ≡ ok (recent p run (get_elem? xs limit))
in_crash_loop_lem p limit run xs is_limit = elim (Option-cases (get_elem? xs limit)) [
  | inl e ↦ let room = bounded-room limit xs e in rw e (ground arith)
  | inr (t, e) ↦
      let (len, found) = bounded-full limit xs t e in
      let first = oldest-full limit (bounded (suc limit) xs) len in rw e (ground arith)
]

get_inside : (xs : List ℕ) (i : ℕ) → i < length xs → (y : ℕ) × (get_elem? xs i ≡ some y)
get_inside [] i h = absurd (omega arith)
get_inside (x ∷ xs) zero h = (x, refl)
get_inside (x ∷ xs) (suc i) h = get_inside xs i (omega arith)

last-cons : (x : ℕ) (xs : List ℕ) → (y : ℕ) × (last (x ∷ xs) ≡ some y)
last-cons x xs = get_inside (x ∷ xs) _ (omega arith)

-- How the loop goes on behind a run.
abbrev pub IsDecision : Policy → (limit longest : ℕ) → Run → List Run → Decision × Child → Type 0
IsDecision p limit longest run h (degrade, c) = is_crash_loop p limit run h ≡ true
IsDecision p limit longest run h (back_off d, c) =
    (is_crash_loop p limit run h ≡ false)
    × (delay_at p.backoff_schedule (earlier longest run h) ≡ some d)
    × (c ≡ child_after p longest (run ∷ h))

decide_lem :
    (p : Policy) (limit longest : ℕ) (run : Run) (h : List Run) (crash_loop : Bool) {d : ℕ}
    → crash_loop ≡ is_crash_loop p limit run h
    → delay_at p.backoff_schedule (earlier longest run h) ≡ some d
    → (r : Decision × Child) × (decide crash_loop
          (delay_at p.backoff_schedule (earlier longest run h))
          (earlier longest run h)
          (bounded p.crash_loop_max_restarts (exits (run ∷ h)))
        ≡ ok r)
      × IsDecision p limit longest run h r
decide_lem p limit longest run h true same found = (_, refl, sym same)
decide_lem p limit longest run h false {d} same found =
    ((back_off d, child_after p longest (run ∷ h)), rw found refl, (sym same, found, refl))

length-pos : (xs : List ℕ) → xs ≢ [] → 0 < length xs
length-pos [] h = absurd (h refl)
length-pos (x ∷ xs) h = omega arith

last-empty : {y : ℕ} → last [] ≡ some y → ⊥
last-empty e = cc

delay-found :
    (p : Policy) (failures : ℕ)
    → p.backoff_schedule ≢ []
    → (d : ℕ) × (delay_at p.backoff_schedule failures ≡ some d)
delay-found p failures ne =
    get_inside p.backoff_schedule _ (omega (arith, length-pos p.backoff_schedule ne))

-- After any history of runs, the next exit of a child gives it up exactly if as many exits as the
-- limit says, this one counted, lie within the window; otherwise the loop waits for the entry of the
-- schedule that stands at the number of runs since the last one that outlasted the longest delay, or
-- for the longest delay, and goes on as if it had kept the whole history. It raises nothing, if the
-- limit is above 0 and the schedule is not empty.
pub child_exited_lem :
    (p : Policy) (limit longest : ℕ) (run : Run) (h : List Run)
    → p.crash_loop_max_restarts ≡ suc limit
    → last p.backoff_schedule ≡ some longest
    → (r : Decision × Child) × (child_exited p run (child_after p longest h) ≡ ok r)
      × IsDecision p limit longest run h r
unfolding child_exited
child_exited_lem p limit longest run h is_limit is_longest =
    let n = p.crash_loop_max_restarts in
    let (d, found) = delay-found p (earlier longest run h) (λ e. last-empty (rw e at is_longest)) in
    let (r, decided, correct) =
      decide_lem p limit longest run h (is_crash_loop p limit run h) refl found in
    let kept : bounded n (run.exited_at ∷ bounded n (exits h)) ≡ bounded n (exits (run ∷ h)) =
      rw is_limit (ap (λ l. run.exited_at ∷ l) (bounded-bounded-suc limit (exits h))) in
    let crash =
      ap (λ (k : ℕ). in_crash_loop p run (bounded k (exits (run ∷ h)))) is_limit
      ∙ in_crash_loop_lem p limit run (exits (run ∷ h)) is_limit in
    (r, rw (is_longest, kept, crash) decided, correct)
