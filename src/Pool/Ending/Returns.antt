-- ===== src/Pool/Ending/Returns.antt =====
-- The destructor of the pool of src/common/TThreadPool.cpp: the way to its return.
use kadpeer.Prelude.{
  ℕ, zero, suc, ◌+◌, ◌*◌, ◌-◌, ◌<◌, ◌≡◌, ◌⊎◌, inl, inr, refl, true, false, arith, ◌∙◌, ◌≤◌,
  Bool-cases,
}
use native.Mathlib.Decide.{dec_lt}
use kadpeer.Threads.{sum_below, sum_below-put}
use kadpeer.Pool.Ending.{
  Stage, busy, asleep, all_idle, syncing, sync_asleep, sync_woken, work_woken, told_to_quit,
  sync_waits, sync_ends, come_idle, fall_asleep, inner, leaving, released, ended, Worker, Owner,
  quitting, joining, deleting, finished, Ending, move_to, OwnerStep, quit, all_quit, lock_del_mutex,
  delete_thread, all_joined, WorkerStep, leave, release, reset_running, EndStep, by_owner,
  by_worker, EndReach, onward,
}
use kadpeer.Pool.Ending.Ends.{Fits, EndReach-Fits}

abbrev stage_left : Worker → ℕ
stage_left w = elim (w.stage) [
  | busy ↦ 6
  | inner ↦ 4
  | asleep ↦ 3
  | leaving ↦ 2
  | released ↦ 1
  | ended ↦ 0
]

abbrev owner_left : ℕ → Owner → ℕ
owner_left n syncing = 4 * n + 4
owner_left n sync_asleep = 4 * n + 3
owner_left n (quitting i) = 2 * (n - i) + 2 * n + 2
owner_left n (joining i) = 2 * (n - i) + 1
owner_left n (deleting i) = 2 * (n - i)
owner_left n finished = 0

abbrev left_to_do : ℕ → Ending → ℕ
left_to_do n s = sum_below stage_left n s.worker + owner_left n s.owner

work_woken-left : (w : Worker) → stage_left (told_to_quit w) ≤ suc (stage_left w)
work_woken-left w = stage_woken w.stage
  where
    stage_woken :
        (g : Stage)
        → stage_left (record { stage = work_woken g; end = true; exists = true })
          ≤ suc (stage_left (record { stage = g; end = true; exists = true }))
    stage_woken busy = omega arith
    stage_woken inner = omega arith
    stage_woken asleep = omega arith
    stage_woken leaving = omega arith
    stage_woken released = omega arith
    stage_woken ended = omega arith

sync_woken-left : (n : ℕ) (o : Owner) → owner_left n (sync_woken o) ≤ suc (owner_left n o)
sync_woken-left n syncing = omega arith
sync_woken-left n sync_asleep = omega arith
sync_woken-left n (quitting i) = omega arith
sync_woken-left n (joining i) = omega arith
sync_woken-left n (deleting i) = omega arith
sync_woken-left n finished = omega arith

owner-left_to_do :
    {n : ℕ} {s s' : Ending} → Fits n s → OwnerStep n s s' → left_to_do n s' < left_to_do n s
owner-left_to_do f (sync_waits at some_busy) = ground arith
owner-left_to_do f (sync_ends at all_in) = ground arith
owner-left_to_do {n} {s} f (quit i at low) = ground (
  arith,
  sum_below-put stage_left n s.worker i (told_to_quit (s.worker i)) low,
  work_woken-left (s.worker i),
)
owner-left_to_do f (all_quit i at high) = ground arith
owner-left_to_do f (lock_del_mutex i at low free) = ground arith
owner-left_to_do {n} {s} f (delete_thread i at) = ground (
  arith,
  f.within i at,
  sum_below-put stage_left n s.worker i (record (s.worker i) { exists = false }) (f.within i at),
)
owner-left_to_do f (all_joined i at high) = ground arith

worker-left_to_do : {n : ℕ} {s s' : Ending} → WorkerStep n s s' → left_to_do n s' < left_to_do n s
worker-left_to_do {n} {s} (come_idle i low at) = ground (
  arith,
  sum_below-put stage_left n s.worker i (move_to inner (s.worker i)) low,
  sync_woken-left n s.owner,
)
worker-left_to_do {n} {s} (fall_asleep i low at stays) =
    ground (arith, sum_below-put stage_left n s.worker i (move_to asleep (s.worker i)) low)
worker-left_to_do {n} {s} (leave i low at told_) =
    ground (arith, sum_below-put stage_left n s.worker i (move_to leaving (s.worker i)) low)
worker-left_to_do {n} {s} (release i low at) =
    ground (arith, sum_below-put stage_left n s.worker i (move_to released (s.worker i)) low)
worker-left_to_do {n} {s} (reset_running i low at) =
    ground (arith, sum_below-put stage_left n s.worker i (move_to ended (s.worker i)) low)

EndStep-left_to_do :
    {n : ℕ} {s s' : Ending} → Fits n s → EndStep n s s' → left_to_do n s' < left_to_do n s
EndStep-left_to_do f (by_owner st) = owner-left_to_do f st
EndStep-left_to_do f (by_worker st) = worker-left_to_do st

-- The destructor returns, on every way that the steps may take.
pub data Finishes (n : ℕ) : Ending → Type 0 where
  done : {s : Ending} → s.owner ≡ finished → Finishes n s
  goes_on :
      {s : Ending} (u : Ending)
      → EndStep n s u
      → ((t : Ending) → EndStep n s t → Finishes n t)
      → Finishes n s

join_moves :
    {n : ℕ} {s : Ending} (i : ℕ)
    → Fits n s
    → s.owner ≡ joining i
    → i < n
    → (g : Stage) → (s.worker i).stage ≡ g
    → (u : Ending) × EndStep n s u
join_moves i f at low busy e = absurd (ground (arith, f.idle (rw at refl) i low, e))
join_moves i f at low asleep e =
    absurd (ground (arith, f.awake i low (f.ends i low ∙ rw at refl), e))
join_moves i f at low inner e = (_, by_worker (leave i low e (ground (arith, f.ends i low))))
join_moves i f at low leaving e = (_, by_worker (release i low e))
join_moves i f at low released e = (_, by_owner (lock_del_mutex i at low (ground arith)))
join_moves i f at low ended e = (_, by_owner (lock_del_mutex i at low (ground arith)))

moves :
    {n : ℕ} {s : Ending} (o : Owner)
    → Fits n s
    → s.owner ≡ o
    → (o ≡ finished) ⊎ ((u : Ending) × EndStep n s u)
moves {n} {s} syncing f at = elim (Bool-cases (all_idle n s.worker)) [
  | inl all_in ↦ inr (_, by_owner (sync_ends at all_in))
  | inr some_busy ↦ inr (_, by_owner (sync_waits at some_busy))
]
moves {n} {s} sync_asleep f at =
    let (t, lt, there) = f.waits (rw at refl) in inr (_, by_worker (come_idle t lt there))
moves {n} (quitting i) f at = elim (dec_lt i n) [
  | yes low ↦ inr (_, by_owner (quit i at low))
  | no high ↦ inr (_, by_owner (all_quit i at (omega arith)))
]
moves {n} {s} (joining i) f at = elim (dec_lt i n) [
  | yes low ↦ inr (join_moves i f at low (s.worker i).stage refl)
  | no high ↦ inr (_, by_owner (all_joined i at (omega arith)))
]
moves (deleting i) f at = inr (_, by_owner (delete_thread i at))
moves finished f at = inl refl

enough_steps : {n : ℕ} (fuel : ℕ) {s : Ending} → EndReach n s → left_to_do n s < fuel → Finishes n s
enough_steps zero r few = absurd (omega arith)
enough_steps (suc fuel) {s} r few = elim (moves s.owner (EndReach-Fits r) refl) [
  | inl e ↦ done e
  | inr (u, st) ↦ goes_on u st λ t st'.
      enough_steps fuel (onward r st') (omega (arith, EndStep-left_to_do (EndReach-Fits r) st'))
]

-- The destructor of a pool that nobody else uses returns under every order of its steps and those of
-- the threads, from the begin of its `sync_all`, where each job ends: as long as it has not, one of them
-- can make a step, and they do not go on for ever.
pub EndReach-Finishes : {n : ℕ} {s : Ending} → EndReach n s → Finishes n s
EndReach-Finishes {n} {s} r = enough_steps (suc (left_to_do n s)) r (omega arith)
