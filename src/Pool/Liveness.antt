-- ===== src/Pool/Liveness.antt =====
-- The way of a call of `run`, `sync` or `sync_all` of src/common/TThreadPool.cpp to its return, with one
-- caller and over the steps of the threads and the caller. A job's own `run` is one step. Wakeups that
-- nobody signalled are left out; each of them costs the caller a test.
use kadpeer.Prelude.{
  ℕ, zero, suc, ◌≡◌, ◌≢◌, ◌≤◌, ◌<◌, refl, Bool, true, false, Option, none, some, List, [], ◌∷◌,
  arith, ltb, length, ◌⊎◌, inl, inr, Bool-cases,
}
use kadpeer.Threads.{put, sum_below, positive}
use kadpeer.Pool.{
  Task, Place, top, waiting, dozing, running, ran, unlocked, resetting, Thread, Caller, free,
  getting, get_asleep, got, assigning, syncing, synced, all_testing, all_asleep, System, has,
  append_idle, woken, asleep, Signal, nobody, wakes,
}
use kadpeer.Pool.Steps.{
  Reach, ThreadStep, CallerStep, Outside, Step, by_thread, by_caller, outside, started, later,
}
use kadpeer.Pool.Counts.{claims, busy, busy_at, caller_keeps, thread_keeps, keeps_at}
use kadpeer.Pool.Invariant.{Inv, tidy_at}
use kadpeer.Pool.Listed.{occurs-short}
use kadpeer.Pool.Reachable.{Reach-Inv}
use kadpeer.Pool.Progress.{steps_left, thread-steps_left, caller-steps_left}

-- A caller who sleeps has nothing to do.
abbrev alert_in : ℕ → List ℕ → Caller → Bool
alert_in n [] (get_asleep k) = true
alert_in n (t ∷ ts) (get_asleep k) = false
alert_in n ts all_asleep = ltb (length ts) n
alert_in n ts c = true

abbrev alert : ℕ → System → Bool
alert n s = alert_in n s.idle (s.caller 0)

alert-awake : (n : ℕ) (ts : List ℕ) (c : Caller) → asleep c ≡ false → alert_in n ts c ≡ true
alert-awake n ts c h = ground arith

alert-woken : (n : ℕ) (ts : List ℕ) (c : Caller) → alert_in n ts (woken c) ≡ true
alert-woken n ts c = ground arith

alert-Signal : (n : ℕ) (ts : List ℕ) {f g : ℕ → Caller} → Signal 1 f g → alert_in n ts (g 0) ≡ true
alert-Signal n ts {f} (nobody h) = alert-awake n ts (f 0) (h 0 (omega arith))
alert-Signal n ts {f} (wakes zero lt h) = alert-woken n ts (f 0)
alert-Signal n ts {f} (wakes (suc c) lt h) = absurd (omega arith)

thread-alert : {n : ℕ} {s t : System} → ThreadStep n 1 s t → alert n s ≡ true → alert n t ≡ true
thread-alert {n} {s} (ThreadStep.append t lt at off sig) h =
    alert-Signal n (append_idle t s.idle) sig
thread-alert (ThreadStep.append_again t lt at on) h = ground arith
thread-alert (ThreadStep.doze t lt at has) h = h
thread-alert (ThreadStep.take t lt at has) h = h
thread-alert (ThreadStep.run t lt at has) h = h
thread-alert (ThreadStep.unlock t lt at has) h = h
thread-alert (ThreadStep.delete t lt at has) h = h
thread-alert (ThreadStep.reset t lt at) h = h

caller-alert : {n : ℕ} {s t : System} → CallerStep n 1 s t → alert n s ≡ true → alert n t ≡ true
caller-alert (CallerStep.get_none c lt at empty) h = ground arith
caller-alert (CallerStep.get c lt at item) h = ground arith
caller-alert (CallerStep.lock c lt at open_) h = ground arith
caller-alert (CallerStep.assign c lt at) h = ground arith
caller-alert (CallerStep.sync_lock c lt at open_) h = ground arith
caller-alert (CallerStep.sync_unlock c lt at) h = ground arith
caller-alert (CallerStep.all_wait c lt at short) h = ground arith
caller-alert (CallerStep.all_return c lt at full) h = ground arith

Outside-alert : (n : ℕ) {s t : System} → Outside 1 s t → alert n s ≡ true → alert n t ≡ true
Outside-alert n (Outside.call_run c k lt at) h = ground arith
Outside-alert n (Outside.call_sync c j lt at) h = ground arith
Outside-alert n (Outside.call_sync_all c lt at) h = ground arith
Outside-alert n {s} (Outside.wake c lt at) h = ground (arith, alert-woken n s.idle (s.caller 0))

Reach-alert : {n : ℕ} {s : System} → Reach n 1 s → alert n s ≡ true
Reach-alert started = refl
Reach-alert (later r (by_thread st)) = thread-alert st (Reach-alert r)
Reach-alert (later r (by_caller st)) = caller-alert st (Reach-alert r)
Reach-alert {n} (later r (outside st)) = Outside-alert n st (Reach-alert r)

signalled : (f : ℕ → Caller) → (g : ℕ → Caller) × Signal 1 f g
signalled f = elim (Bool-cases (asleep (f 0))) [
  | inl yes_ ↦ (put f 0 (woken (f 0)), wakes 0 (omega arith) yes_)
  | inr no_ ↦ (f, nobody (λ c lt. ground arith))
]

-- A thread that is busy makes a step.
thread_moves :
    {n : ℕ} {s : System} (t : ℕ) (p : Place) (o : Option Task)
    → t < n
    → (s.thread t).place ≡ p
    → (s.thread t).slot ≡ o
    → busy_at p o ≡ 1
    → tidy_at p o ≡ true
    → (s' : System) × ThreadStep n 1 s s'
thread_moves {s} t top none lt at slot h tidied = elim (Bool-cases (has t s.idle)) [
  | inl on ↦ (_, ThreadStep.append_again t lt at on)
  | inr off ↦ let (g, sig) = signalled s.caller in (_, ThreadStep.append t lt at off sig)
]
thread_moves t waiting (some k) lt at slot h tidied = (_, ThreadStep.take t lt at slot)
thread_moves t running (some k) lt at slot h tidied = (_, ThreadStep.run t lt at slot)
thread_moves t ran (some k) lt at slot h tidied = (_, ThreadStep.unlock t lt at slot)
thread_moves t unlocked (some k) lt at slot h tidied = (_, ThreadStep.delete t lt at slot)
thread_moves t resetting (some k) lt at slot h tidied = (_, ThreadStep.reset t lt at)
thread_moves t top (some k) lt at slot h tidied = absurd (ground arith)
thread_moves t waiting none lt at slot h tidied = absurd (ground arith)
thread_moves t dozing none lt at slot h tidied = absurd (ground arith)
thread_moves t dozing (some k) lt at slot h tidied = absurd (ground arith)
thread_moves t running none lt at slot h tidied = absurd (ground arith)
thread_moves t ran none lt at slot h tidied = absurd (ground arith)
thread_moves t unlocked none lt at slot h tidied = absurd (ground arith)
thread_moves t resetting none lt at slot h tidied = absurd (ground arith)

sum_below-one : (w : Caller → ℕ) (f : ℕ → Caller) → sum_below w 1 f ≡ w (f 0)
unfolding sum_below
sum_below-one w f = omega arith

keeps_at-busy : (j : ℕ) (p : Place) (o : Option Task) → 1 ≤ keeps_at j p o → busy_at p o ≡ 1
keeps_at-busy j p o h = ground arith

keeps-busy : (j : ℕ) (w : Thread) → 1 ≤ thread_keeps j w → busy w ≡ 1
keeps-busy j w h = keeps_at-busy j w.place w.slot h

list_cases : (ts : List ℕ) → (ts ≡ []) ⊎ ((u : ℕ) × (us : List ℕ) × (ts ≡ u ∷ us))
list_cases [] = inl refl
list_cases (u ∷ us) = inr (u, us, refl)

-- A step of a thread, or of the caller at work.
abbrev pub Work : ℕ → System → System → Type 0
Work n s t = ThreadStep n 1 s t ⊎ CallerStep n 1 s t

module _ {n : ℕ} {s : System} (r : Reach n 1 s) where
  open (Reach-Inv r) use {placed, tidied, mutex}

  busy_moves : (t : ℕ) → t < n → busy (s.thread t) ≡ 1 → (u : System) × Work n s u
  busy_moves t low h =
      let (u, st) =
        thread_moves t (s.thread t).place (s.thread t).slot low refl refl h (tidied t) in
      (u, inl st)

  -- A thread that keeps the mutex of a job makes a step.
  locked_moves :
      (j : ℕ) → caller_keeps j (s.caller 0) ≡ 0 → s.locked j ≡ true → (u : System) × Work n s u
  locked_moves j off on =
      let (t, low, h) =
        positive (thread_keeps j) n s.thread
          (ground (arith, mutex j, sum_below-one (caller_keeps j) s.caller)) in
      busy_moves t low (keeps-busy j (s.thread t) h)

  -- A caller at work, or one of the threads, makes a step.
  moves : 0 < n → (c : Caller) → s.caller 0 ≡ c → c ≢ free → (u : System) × Work n s u
  moves some_thread free at h = absurd (h refl)
  moves some_thread (getting k) at h = elim (list_cases s.idle) [
    | inl empty ↦ (_, inr (CallerStep.get_none 0 (omega arith) at empty))
    | inr (t, ts, item) ↦ (_, inr (CallerStep.get 0 (omega arith) at item))
  ]
  moves some_thread (get_asleep k) at h =
      busy_moves 0 some_thread
        (ground (arith, Reach-alert r, placed 0, sum_below-one (claims 0) s.caller))
  moves some_thread (got k t) at h = elim (Bool-cases (s.locked k.job)) [
    | inl on ↦ locked_moves k.job (ground arith) on
    | inr off ↦ (_, inr (CallerStep.lock 0 (omega arith) at off))
  ]
  moves some_thread (assigning k t) at h = (_, inr (CallerStep.assign 0 (omega arith) at))
  moves some_thread (syncing j) at h = elim (Bool-cases (s.locked j)) [
    | inl on ↦ locked_moves j (ground arith) on
    | inr off ↦ (_, inr (CallerStep.sync_lock 0 (omega arith) at off))
  ]
  moves some_thread (synced j) at h = (_, inr (CallerStep.sync_unlock 0 (omega arith) at))
  moves some_thread all_testing at h = elim (Bool-cases (ltb (length s.idle) n)) [
    | inl short ↦ (_, inr (CallerStep.all_wait 0 (omega arith) at short))
    | inr full ↦ (_, inr (CallerStep.all_return 0 (omega arith) at full))
  ]
  moves some_thread all_asleep at h =
      let short : ltb (length s.idle) n ≡ true = ground (arith, Reach-alert r) in
      let (t, low, off) =
        occurs-short n s.idle (λ u high. omega (arith, (Reach-Inv r).range u high)) short in
      busy_moves t low (ground (arith, placed t low, sum_below-one (claims t) s.caller))

-- The call of the caller returns, on every way that the steps of the threads and the caller may take.
pub data Returns (n : ℕ) : System → Type 0 where
  returned : {s : System} → s.caller 0 ≡ free → Returns n s
  goes_on :
      {s : System} (u : System)
      → Work n s u
      → ((t : System) → Work n s t → Returns n t)
      → Returns n s

is_free : (c : Caller) → (c ≡ free) ⊎ (c ≢ free)
is_free free = inl refl
is_free (getting k) = inr (λ e. cc)
is_free (get_asleep k) = inr (λ e. cc)
is_free (got k t) = inr (λ e. cc)
is_free (assigning k t) = inr (λ e. cc)
is_free (syncing j) = inr (λ e. cc)
is_free (synced j) = inr (λ e. cc)
is_free all_testing = inr (λ e. cc)
is_free all_asleep = inr (λ e. cc)

to_step : {n : ℕ} {s t : System} → Work n s t → Step n 1 s t
to_step (inl st) = by_thread st
to_step (inr st) = by_caller st

Work-steps_left :
    {n : ℕ} {s t : System} → Inv n 1 s → Work n s t → steps_left n 1 t < steps_left n 1 s
Work-steps_left inv (inl st) = thread-steps_left inv st
Work-steps_left inv (inr st) = caller-steps_left inv st

enough_steps :
    {n : ℕ} (f : ℕ) {s : System} → 0 < n → Reach n 1 s → steps_left n 1 s < f → Returns n s
enough_steps zero some_thread r few = absurd (omega arith)
enough_steps {n} (suc f) {s} some_thread r few = elim (is_free (s.caller 0)) [
  | inl e ↦ returned e
  | inr ne ↦
      let (u, w) = moves r some_thread (s.caller 0) refl ne in
      goes_on u w λ t v.
        enough_steps f some_thread (later r (to_step v))
          (omega (arith, Work-steps_left (Reach-Inv r) v))
]

-- With one caller and at least one thread, from every reachable state, the call that the caller is
-- at returns: as long as it has not, some thread or the caller can make a step, and no order of
-- their steps goes on for ever without its return.
pub Reach-Returns : {n : ℕ} {s : System} → 0 < n → Reach n 1 s → Returns n s
Reach-Returns {n} {s} some_thread r =
    enough_steps (suc (steps_left n 1 s)) some_thread r (omega arith)
