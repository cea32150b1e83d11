-- ===== src/Pool/Ending/Ends.antt =====
-- What the destructor of the pool of src/common/TThreadPool.cpp deletes.
use kadpeer.Prelude.{
  ℕ, zero, suc, ◌<◌, ◌≤◌, ◌≡◌, refl, sym, ap, ◌∙◌, Bool, true, false, not, ◌||◌, ltb, arith, ◌==◌,
  ==_iff, Bool-cases, inl, inr,
}
use kadpeer.Pool.Ending.{
  Stage, Worker, busy, inner, asleep, leaving, released, ended, is_idle, all_idle, sync_woken,
  syncing, sync_asleep, sync_waits, sync_ends, come_idle, fall_asleep, Owner, quitting, joining,
  deleting, finished, Ending, begin, has_left, OwnerStep, quit, all_quit, lock_del_mutex,
  delete_thread, all_joined, WorkerStep, leave, release, reset_running, by_owner, by_worker,
  EndReach, begun, onward,
}

-- Whether the destructor has told the thread to quit, and whether it has deleted it.
abbrev pub told : Owner → ℕ → Bool
told syncing t = false
told sync_asleep t = false
told (quitting i) t = ltb t i
told (joining i) t = true
told (deleting i) t = true
told finished t = true

abbrev pub gone : Owner → ℕ → Bool
gone syncing t = false
gone sync_asleep t = false
gone (quitting i) t = false
gone (joining i) t = ltb t i
gone (deleting i) t = ltb t i
gone finished t = true

-- The thread that the destructor deletes next has left `run`.
abbrev pub ready : Owner → ℕ → Bool
ready (deleting i) t = t == i
ready o t = false

abbrev pub in_loop : Stage → Bool
in_loop busy = true
in_loop inner = true
in_loop asleep = true
in_loop s = false

abbrev pub is_asleep : Stage → Bool
is_asleep asleep = true
is_asleep g = false

abbrev pub in_sync : Owner → Bool
in_sync syncing = true
in_sync sync_asleep = true
in_sync o = false

abbrev pub is_waiting : Owner → Bool
is_waiting sync_asleep = true
is_waiting o = false

-- What holds of the first `n` threads in every state.
pub record Fits (n : ℕ) (s : Ending) : Type 0 where
  pub ends : (t : ℕ) → t < n → (s.worker t).end ≡ told s.owner t
  pub deleted : (t : ℕ) → t < n → (s.worker t).exists ≡ not (gone s.owner t)
  pub left :
      (t : ℕ)
      → t < n
      → (gone s.owner t || ready s.owner t) ≡ true
      → has_left (s.worker t).stage ≡ true
  pub quits : (t : ℕ) → t < n → (s.worker t).end ≡ false → in_loop (s.worker t).stage ≡ true
  pub within : (i : ℕ) → s.owner ≡ deleting i → i < n
  pub idle : in_sync s.owner ≡ false → (t : ℕ) → t < n → is_idle (s.worker t).stage ≡ true
  pub awake : (t : ℕ) → t < n → (s.worker t).end ≡ true → is_asleep (s.worker t).stage ≡ false
  -- While `sync_all` sleeps, some thread is still to come to the list.
  pub waits : is_waiting s.owner ≡ true → (t : ℕ) × (t < n) × ((s.worker t).stage ≡ busy)

all_idle-at : (n t : ℕ) (w : ℕ → Worker) → all_idle n w ≡ true → t < n → is_idle (w t).stage ≡ true
unfolding all_idle
all_idle-at zero t w h lt = absurd (omega arith)
all_idle-at (suc n) t w h lt = elim (Bool-cases (t == n)) [
  | inl e ↦ ground (arith, ==_iff t n)
  | inr e ↦ all_idle-at n t w (ground arith) (ground (arith, ==_iff t n))
]

is_idle-busy : (g : Stage) → is_idle g ≡ false → g ≡ busy
is_idle-busy busy h = refl
is_idle-busy inner h = cc
is_idle-busy asleep h = cc
is_idle-busy leaving h = cc
is_idle-busy released h = cc
is_idle-busy ended h = cc

busy_one :
    (n : ℕ) (w : ℕ → Worker) → all_idle n w ≡ false → (t : ℕ) × (t < n) × ((w t).stage ≡ busy)
unfolding all_idle
busy_one zero w h = cc
busy_one (suc n) w h = elim (Bool-cases (is_idle (w n).stage)) [
  | inl i ↦ let (t, lt, at) = busy_one n w (ground arith) in (t, omega arith, at)
  | inr b ↦ (n, omega arith, is_idle-busy (w n).stage b)
]

Fits-begin : (n : ℕ) → Fits n begin
Fits-begin n = record {
  ends = λ t lt. refl;
  deleted = λ t lt. refl;
  left = λ t lt h. cc;
  quits = λ t lt h. refl;
  within = λ i e. cc;
  idle = λ h t lt. cc;
  awake = λ t lt h. refl;
  waits = λ h. cc;
}

owner-Fits : {n : ℕ} {s s' : Ending} → Fits n s → OwnerStep n s s' → Fits n s'
owner-Fits {s} f (sync_waits at some_busy) = record {
  ends = λ t lt. ground (arith, f.ends t lt);
  deleted = λ t lt. ground (arith, f.deleted t lt);
  left = λ t lt h. ground (arith, f.left t lt);
  quits = λ t lt h. ground (arith, f.quits t lt);
  within = λ j e. cc;
  idle = λ h t lt. cc;
  awake = λ t lt h. f.awake t lt h;
  waits = λ h. busy_one _ s.worker some_busy;
}
owner-Fits {s} f (sync_ends at all_in) = record {
  ends = λ t lt. ground (arith, f.ends t lt);
  deleted = λ t lt. ground (arith, f.deleted t lt);
  left = λ t lt h. ground (arith, f.left t lt);
  quits = λ t lt h. ground (arith, f.quits t lt);
  within = λ j e. cc;
  idle = λ h t lt. all_idle-at _ t s.worker all_in lt;
  awake = λ t lt h. f.awake t lt h;
  waits = λ h. cc;
}
owner-Fits {s} f (quit i at low) = record {
  ends = λ t lt. ground (arith, f.ends t lt);
  deleted = λ t lt. ground (arith, f.deleted t lt);
  left = λ t lt h. ground (arith, f.left t lt);
  quits = λ t lt h. ground (arith, f.quits t lt);
  within = λ j e. cc;
  idle = λ h t lt. ground (arith, f.idle (rw at refl) t lt);
  awake = λ t lt h. ground (arith, f.awake t lt);
  waits = λ h. cc;
}
owner-Fits {s} f (all_quit i at high) = record {
  ends = λ t lt. ground (arith, f.ends t lt);
  deleted = λ t lt. ground (arith, f.deleted t lt);
  left = λ t lt h. ground (arith, f.left t lt);
  quits = λ t lt h. ground (arith, f.quits t lt);
  within = λ j e. cc;
  idle = λ h t lt. ground (arith, f.idle (rw at refl) t lt);
  awake = λ t lt h. ground (arith, f.awake t lt);
  waits = λ h. cc;
}
owner-Fits {s} f (lock_del_mutex i at low free) = record {
  ends = λ t lt. ground (arith, f.ends t lt);
  deleted = λ t lt. ground (arith, f.deleted t lt);
  left = λ t lt h. ground (arith, f.left t lt);
  quits = λ t lt h. ground (arith, f.quits t lt);
  within = λ j e. ground arith;
  idle = λ h t lt. ground (arith, f.idle (rw at refl) t lt);
  awake = λ t lt h. ground (arith, f.awake t lt);
  waits = λ h. cc;
}
owner-Fits {s} f (delete_thread i at) = record {
  ends = λ t lt. ground (arith, f.ends t lt);
  deleted = λ t lt. ground (arith, f.deleted t lt);
  left = λ t lt h. ground (arith, f.left t lt);
  quits = λ t lt h. ground (arith, f.quits t lt);
  within = λ j e. cc;
  idle = λ h t lt. ground (arith, f.idle (rw at refl) t lt);
  awake = λ t lt h. ground (arith, f.awake t lt);
  waits = λ h. cc;
}
owner-Fits {s} f (all_joined i at high) = record {
  ends = λ t lt. ground (arith, f.ends t lt);
  deleted = λ t lt. ground (arith, f.deleted t lt);
  left = λ t lt h. ground (arith, f.left t lt);
  quits = λ t lt h. ground (arith, f.quits t lt);
  within = λ j e. cc;
  idle = λ h t lt. ground (arith, f.idle (rw at refl) t lt);
  awake = λ t lt h. ground (arith, f.awake t lt);
  waits = λ h. cc;
}

woken-deleting : (o : Owner) (j : ℕ) → sync_woken o ≡ deleting j → o ≡ deleting j
woken-deleting syncing j e = e
woken-deleting sync_asleep j e = cc
woken-deleting (quitting i) j e = e
woken-deleting (joining i) j e = e
woken-deleting (deleting i) j e = e
woken-deleting finished j e = e

woken-in_sync : (o : Owner) → in_sync (sync_woken o) ≡ in_sync o
woken-in_sync syncing = refl
woken-in_sync sync_asleep = refl
woken-in_sync (quitting i) = refl
woken-in_sync (joining i) = refl
woken-in_sync (deleting i) = refl
woken-in_sync finished = refl

woken-is_waiting : (o : Owner) → ¬ is_waiting (sync_woken o) ≡ true
woken-is_waiting syncing h = cc
woken-is_waiting sync_asleep h = cc
woken-is_waiting (quitting i) h = cc
woken-is_waiting (joining i) h = cc
woken-is_waiting (deleting i) h = cc
woken-is_waiting finished h = cc

worker-Fits : {n : ℕ} {s s' : Ending} → Fits n s → WorkerStep n s s' → Fits n s'
worker-Fits {s} f (come_idle i low at) = record {
  ends = λ t lt. ground (arith, f.ends t lt);
  deleted = λ t lt. ground (arith, f.deleted t lt);
  left = λ t lt h. ground (arith, f.left t lt);
  quits = λ t lt h. ground (arith, f.quits t lt);
  within = λ j e. f.within j (woken-deleting s.owner j e);
  idle = λ h t lt. ground (arith, f.idle (sym (woken-in_sync s.owner) ∙ h) t lt);
  awake = λ t lt h. ground (arith, f.awake t lt);
  waits = λ h. absurd (woken-is_waiting s.owner h);
}
worker-Fits {s} f (fall_asleep i low at stays) = record {
  ends = λ t lt. ground (arith, f.ends t lt);
  deleted = λ t lt. ground (arith, f.deleted t lt);
  left = λ t lt h. ground (arith, f.left t lt);
  quits = λ t lt h. ground (arith, f.quits t lt);
  within = λ j e. f.within j e;
  idle = λ h t lt. ground (arith, f.idle h t lt);
  awake = λ t lt h. ground (arith, f.awake t lt);
  waits = λ h. let (t, lt, there) = f.waits h in (t, lt, ground arith);
}
worker-Fits {s} f (leave i low at told_) = record {
  ends = λ t lt. ground (arith, f.ends t lt);
  deleted = λ t lt. ground (arith, f.deleted t lt);
  left = λ t lt h. ground (arith, f.left t lt);
  quits = λ t lt h. ground (arith, f.quits t lt);
  within = λ j e. f.within j e;
  idle = λ h t lt. ground (arith, f.idle h t lt);
  awake = λ t lt h. ground (arith, f.awake t lt);
  waits = λ h. let (t, lt, there) = f.waits h in (t, lt, ground arith);
}
worker-Fits {s} f (release i low at) = record {
  ends = λ t lt. ground (arith, f.ends t lt);
  deleted = λ t lt. ground (arith, f.deleted t lt);
  left = λ t lt h. ground (arith, f.left t lt);
  quits = λ t lt h. ground (arith, f.quits t lt);
  within = λ j e. f.within j e;
  idle = λ h t lt. ground (arith, f.idle h t lt);
  awake = λ t lt h. ground (arith, f.awake t lt);
  waits = λ h. let (t, lt, there) = f.waits h in (t, lt, ground arith);
}
worker-Fits {s} f (reset_running i low at) = record {
  ends = λ t lt. ground (arith, f.ends t lt);
  deleted = λ t lt. ground (arith, f.deleted t lt);
  left = λ t lt h. ground (arith, f.left t lt);
  quits = λ t lt h. ground (arith, f.quits t lt);
  within = λ j e. f.within j e;
  idle = λ h t lt. ground (arith, f.idle h t lt);
  awake = λ t lt h. ground (arith, f.awake t lt);
  waits = λ h. let (t, lt, there) = f.waits h in (t, lt, ground arith);
}

pub EndReach-Fits : {n : ℕ} {s : Ending} → EndReach n s → Fits n s
EndReach-Fits {n} begun = Fits-begin n
EndReach-Fits (onward r (by_owner st)) = owner-Fits (EndReach-Fits r) st
EndReach-Fits (onward r (by_worker st)) = worker-Fits (EndReach-Fits r) st

-- While a thread is in `run`, the destructor has not deleted it.
pub exists-in_run :
    {n : ℕ} {s : Ending} (t : ℕ)
    → EndReach n s
    → t < n
    → has_left (s.worker t).stage ≡ false
    → (s.worker t).exists ≡ true
exists-in_run {s} t r lt inside =
    ground (arith, (EndReach-Fits r).deleted t lt, (EndReach-Fits r).left t lt)

-- The first threads are idle, and the others are still to come to the list.
record IdleFrom (n i : ℕ) (s : Ending) : Type 0 where
  reach : EndReach n s
  at : s.owner ≡ syncing
  come : (t : ℕ) → t < i → (s.worker t).stage ≡ inner
  to_come : (t : ℕ) → i ≤ t → (s.worker t).stage ≡ busy

idle_next : {n i : ℕ} {s : Ending} → i < n → IdleFrom n i s → (s' : Ending) × IdleFrom n (suc i) s'
idle_next {i} {s} low q = (
  _,
  record {
    reach = onward q.reach (by_worker (come_idle i low (q.to_come i (omega arith))));
    at = ap sync_woken q.at;
    come = λ t lt. ground (arith, q.come t, ==_iff t i);
    to_come = λ t le. ground (arith, q.to_come t, ==_iff t i);
  },
)

idle_from : (n i : ℕ) → i ≤ n → (s : Ending) × IdleFrom n i s
idle_from n zero h = (
  begin,
  record { reach = begun; at = refl; come = λ t lt. absurd (omega arith); to_come = λ t le. refl },
)
idle_from n (suc i) h = let (s, q) = idle_from n i (omega arith) in idle_next (omega arith) q

all_idle-of :
    (n : ℕ) (w : ℕ → Worker) → ((t : ℕ) → t < n → (w t).stage ≡ inner) → all_idle n w ≡ true
unfolding all_idle
all_idle-of zero w h = refl
all_idle-of (suc n) w h = rw (h n (omega arith), all_idle-of n w (λ t lt. h t (omega arith))) refl

-- The destructor has told the first threads to quit, and the first thread has not seen it yet.
record QuitsFrom (n i : ℕ) (s : Ending) : Type 0 where
  reach : EndReach n s
  at : s.owner ≡ quitting i
  told_first : 0 < i → (s.worker 0).end ≡ true
  place : 0 < n → (s.worker 0).stage ≡ inner

quits_next :
    {n i : ℕ} {s : Ending} → i < n → QuitsFrom n i s → (s' : Ending) × QuitsFrom n (suc i) s'
quits_next {i} {s} low q = (
  _,
  record {
    reach = onward q.reach (by_owner (quit i q.at low));
    at = refl;
    told_first = λ lt. ground (arith, q.told_first);
    place = λ some_thread. ground (arith, q.place some_thread);
  },
)

quits_from : (n i : ℕ) → i ≤ n → (s : Ending) × QuitsFrom n i s
quits_from n zero h =
    let (s, q) = idle_from n n (omega arith) in
    (
      _,
      record {
        reach = onward q.reach (by_owner (sync_ends q.at (all_idle-of n s.worker q.come)));
        at = refl;
        told_first = λ lt. absurd (omega arith);
        place = λ some_thread. q.come 0 some_thread;
      },
    )
quits_from n (suc i) h = let (s, q) = quits_from n i (omega arith) in quits_next (omega arith) q

late_from :
    {n : ℕ} {s : Ending}
    → 0 < n
    → QuitsFrom n n s
    → (s' : Ending) × EndReach n s' × (s'.late ≡ true)
late_from {n} some_thread q =
    let joins = onward q.reach (by_owner (all_quit n q.at (omega arith))) in
    let left =
      onward joins
        (by_worker (leave 0 some_thread (q.place some_thread) (q.told_first some_thread))) in
    let free = onward left (by_worker (release 0 some_thread refl)) in
    let locks = onward free (by_owner (lock_del_mutex 0 refl some_thread refl)) in
    let deletes = onward locks (by_owner (delete_thread 0 refl)) in
    (_, onward deletes (by_worker (reset_running 0 some_thread refl)), ground arith)

-- A pool with a thread can come to a state where the thread has written to its deleted object.
pub late-EndReach : (n : ℕ) → 0 < n → (s : Ending) × EndReach n s × (s.late ≡ true)
late-EndReach n some_thread = let (s, q) = quits_from n n (omega arith) in late_from some_thread q
