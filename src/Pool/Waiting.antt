-- ===== src/Pool/Waiting.antt =====
-- What `sync` and `sync_all` promise when they return.
use kadpeer.Prelude.{ℕ, ◌+◌, ◌≡◌, ◌≤◌, ◌<◌, refl, false, Option, ◌==◌, arith, ltb, length}
use kadpeer.Threads.{sum_below, sum_below-eq_zero, sum_below-congr, le-sum_below}
use native.Mathlib.Decide.{dec_lt}
use kadpeer.Pool.{
  Task, Place, Thread, Caller, free, getting, get_asleep, got, assigning, syncing, synced,
  all_testing, all_asleep, System,
}
use kadpeer.Pool.Steps.{Reach}
use kadpeer.Pool.Counts.{
  one_if, occurs, claims, busy_at, busy, pending, unfinished, unfinished_at, weigh, caller_keeps,
  thread_keeps, keeps_at,
}
use kadpeer.Pool.Listed.{occurs-full}
use kadpeer.Pool.Reachable.{Reach-Inv}

-- A job of a caller who still looks for a thread.
abbrev pub looking : (Task → ℕ) → Caller → ℕ
looking v (getting k) = v k
looking v (get_asleep k) = v k
looking v _ = 0

-- A job of a caller who has not locked its mutex.
abbrev pub unlocked_yet : (Task → ℕ) → Caller → ℕ
unlocked_yet v (getting k) = v k
unlocked_yet v (get_asleep k) = v k
unlocked_yet v (got k t) = v k
unlocked_yet v _ = 0

pending-looking :
    (v : Task → ℕ) (c : Caller) → ((t : ℕ) → claims t c ≡ 0) → pending v c ≡ looking v c
pending-looking v (got k t) h = absurd (ground (arith, h t))
pending-looking v (assigning k t) h = absurd (ground (arith, h t))
pending-looking v free h = refl
pending-looking v (getting k) h = refl
pending-looking v (get_asleep k) h = refl
pending-looking v (syncing j) h = refl
pending-looking v (synced j) h = refl
pending-looking v all_testing h = refl
pending-looking v all_asleep h = refl

idle_finished_at :
    (v : Task → ℕ) (p : Place) (o : Option Task) → busy_at p o ≡ 0 → unfinished_at v p o ≡ 0
idle_finished_at v p o h = ground arith

-- When the test of `sync_all` finds no thread missing in the list of idle threads, every thread is
-- in it once and waits without a job, and of the jobs that were asked for, all were run but those
-- of callers who still look for a thread.
pub sync_all-done :
    {n m : ℕ} {s : System} (v : Task → ℕ)
    → Reach n m s
    → ltb (length s.idle) n ≡ false
    → ((t : ℕ) → t < n → (occurs t s.idle ≡ 1) × (busy (s.thread t) ≡ 0))
      × (weigh v s.asked ≡ sum_below (looking v) m s.caller + weigh v s.done)
sync_all-done {n} {m} {s} v r full = (
  λ t low. (listed t low, waits t low),
  omega (
    arith,
    kept v,
    sum_below-congr (pending v) (looking v) m s.caller (λ c lt.
        pending-looking v (s.caller c)
          (λ t. omega (arith, unclaimed t, le-sum_below (claims t) m s.caller c lt))),
    sum_below-eq_zero (unfinished v) n s.thread
        (λ t low. idle_finished_at v (s.thread t).place (s.thread t).slot (waits t low)),
  ),
)
  where
    open (Reach-Inv r) use {placed, range, kept}

    listed : (t : ℕ) → t < n → occurs t s.idle ≡ 1
    listed =
        occurs-full n s.idle (λ t high. omega (arith, range t high))
          (λ t low. omega (arith, placed t low)) full

    waits : (t : ℕ) → t < n → busy (s.thread t) ≡ 0
    waits t low = omega (arith, placed t low, listed t low)

    unclaimed : (t : ℕ) → sum_below (claims t) m s.caller ≡ 0
    unclaimed t = elim (dec_lt t n) [
      | yes low ↦ omega (arith, placed t low, listed t low)
      | no high ↦ omega (arith, range t (omega arith))
    ]

-- The runs of the job `j`.
abbrev pub is_job : ℕ → Task → ℕ
is_job j k = one_if (k.job == j)

pending-unlocked :
    (j : ℕ) (c : Caller) → caller_keeps j c ≡ 0 → pending (is_job j) c ≡ unlocked_yet (is_job j) c
pending-unlocked j c h = ground arith

unfinished_at-le :
    (j : ℕ) (p : Place) (o : Option Task) → unfinished_at (is_job j) p o ≤ keeps_at j p o
unfinished_at-le j p o = ground arith

unfinished-le : (j : ℕ) (w : Thread) → unfinished (is_job j) w ≤ thread_keeps j w
unfinished-le j w = unfinished_at-le j w.place w.slot

-- When `sync` of a job gets its mutex, every run of the job that was asked for is done, but those of
-- callers who have not locked the mutex for theirs.
pub sync-done :
    {n m : ℕ} {s : System} (j : ℕ)
    → Reach n m s
    → s.locked j ≡ false
    → weigh (is_job j) s.asked
      ≡ sum_below (unlocked_yet (is_job j)) m s.caller + weigh (is_job j) s.done
sync-done {n} {m} {s} j r open_ = omega (
  arith,
  kept (is_job j),
  sum_below-congr (pending (is_job j)) (unlocked_yet (is_job j)) m s.caller (λ c lt.
      pending-unlocked j (s.caller c)
        (omega (arith, nobody, le-sum_below (caller_keeps j) m s.caller c lt))),
  sum_below-eq_zero (unfinished (is_job j)) n s.thread (λ t low. omega (
    arith,
    nobody,
    unfinished-le j (s.thread t),
    le-sum_below (thread_keeps j) n s.thread t low,
  )),
)
  where
    open (Reach-Inv r) use {kept, mutex}

    nobody : sum_below (caller_keeps j) m s.caller + sum_below (thread_keeps j) n s.thread ≡ 0
    nobody = ground (arith, mutex j)
