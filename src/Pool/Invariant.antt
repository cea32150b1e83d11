-- ===== src/Pool/Invariant.antt =====
-- The invariant of the pool, which every step keeps.
use kadpeer.Prelude.{ℕ, ◌+◌, ◌≡◌, ◌≤◌, ◌<◌, refl, Bool, true, false, Option, none, some, arith}
use native.Mathlib.Decide.{dec_lt}
use kadpeer.Threads.{sum_below, le-sum_below}
use kadpeer.Pool.{
  Task, Place, top, waiting, dozing, work_signalled, running, ran, unlocked, resetting, Thread,
  assigning, System,
}
use kadpeer.Pool.Counts.{
  one_if, occurs, claims, busy_at, busy, pending, unfinished, weigh, caller_keeps, thread_keeps,
}

-- A thread has a job from where it takes it up to where it sets it back, and none before `append_idle`.
abbrev pub tidy_at : Place → Option Task → Bool
tidy_at top none = true
tidy_at top (some k) = false
tidy_at waiting o = true
tidy_at dozing none = true
tidy_at dozing (some k) = false
tidy_at p none = false
tidy_at p (some k) = true

abbrev pub tidy : Thread → Bool
tidy w = tidy_at w.place w.slot

pub record Inv (n m : ℕ) (s : System) : Type 0 where
  -- A thread is in the list once, or claimed by one caller, or busy.
  pub placed :
      (t : ℕ) → t < n → occurs t s.idle + sum_below (claims t) m s.caller + busy (s.thread t) ≡ 1
  pub range : (t : ℕ) → n ≤ t → occurs t s.idle + sum_below (claims t) m s.caller ≡ 0
  pub tidied : (t : ℕ) → tidy (s.thread t) ≡ true
  -- Each job that was asked for is with a caller, with a thread, or was run.
  pub kept :
      (v : Task → ℕ)
      → weigh v s.asked
        ≡ sum_below (pending v) m s.caller + sum_below (unfinished v) n s.thread + weigh v s.done
  -- The mutex of a job is locked where somebody keeps it.
  pub mutex :
      (j : ℕ)
      → one_if (s.locked j)
        ≡ sum_below (caller_keeps j) m s.caller + sum_below (thread_keeps j) n s.thread

not_busy_at :
    (p : Place) (o : Option Task) → busy_at p o ≡ 0 → (work_signalled p ≡ waiting) × (o ≡ none)
not_busy_at waiting none h = (refl, refl)
not_busy_at dozing none h = (refl, refl)
not_busy_at dozing (some k) h = absurd (omega arith)
not_busy_at waiting (some k) h = absurd (omega arith)
not_busy_at top o h = absurd (omega arith)
not_busy_at running o h = absurd (omega arith)
not_busy_at ran o h = absurd (omega arith)
not_busy_at unlocked o h = absurd (omega arith)
not_busy_at resetting o h = absurd (omega arith)

not_busy : (w : Thread) → busy w ≡ 0 → (work_signalled w.place ≡ waiting) × (w.slot ≡ none)
not_busy w h = not_busy_at w.place w.slot h

module _ {n m : ℕ} {s : System} (inv : Inv n m s) where
  open inv use {placed, range, tidied, kept, mutex}

  -- The thread that a caller has claimed waits without a job.
  pub claimed : {k : Task} {t : ℕ} (c : ℕ) → c < m → s.caller c ≡ assigning k t → t < n
  claimed {t} c lt at = elim (dec_lt t n) [
    | yes low ↦ low
    | no high ↦ absurd (ground (arith, range t, le-sum_below (claims t) m s.caller c lt))
  ]

  pub assign-placed :
      {k : Task} {t : ℕ} (c : ℕ)
      → c < m
      → s.caller c ≡ assigning k t
      → (work_signalled (s.thread t).place ≡ waiting) × ((s.thread t).slot ≡ none)
  assign-placed {t} c lt at =
      let idle : busy (s.thread t) ≡ 0 =
        ground (arith, placed t, claimed c lt at, le-sum_below (claims t) m s.caller c lt) in
      not_busy (s.thread t) idle
