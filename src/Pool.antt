-- ===== src/Pool.antt =====
-- The thread pool of include/common/TThreadPool.hh and src/common/TThreadPool.cpp: `n` threads that run
-- jobs, and callers of `run`, `sync` and `sync_all`, interleaved in any order. What a thread does while
-- it holds `_idle_cond` or `_work_cond` is one step, since the fields that it reads and writes there
-- are used under that lock. A wait on `_work_cond` ends when `run_job` signals the thread, and one on
-- `_idle_cond` when a signal, or the system, wakes the caller; both then test again. The pool is in use: nobody destroys it.
pub mod Counts
pub mod Ending
pub mod Invariant
pub mod ThreadSteps
pub mod CallerSteps
pub mod Calls
pub mod Listed
pub mod Liveness
pub mod Progress
pub mod Reachable
pub mod Steps
pub mod Waiting
use kadpeer.Prelude.{
  ℕ, ◌+◌, ◌<◌, ◌≡◌, Bool, true, false, not, ◌||◌, Option, none, some, List, [], ◌∷◌, ◌++◌, length,
  ltb, ◌==◌, if◌then◌else◌,
}
use kadpeer.Threads.{put}

-- A job with the other arguments of `run`; the job stands for its address. A call of `run` or `sync`
-- with `NULL` returns at once and is no step.
pub record Task : Type 0 where
  pub job : ℕ
  pub ptr : ℕ
  pub del : Bool

-- Where a thread stands in `TPoolThr::run`.
pub data Place : Type 0 where
  top : Place  -- the head of the outer loop, before `append_idle`
  waiting : Place  -- the inner loop, before its test
  dozing : Place  -- in `_work_cond.wait`
  running : Place  -- before `_job->run`
  ran : Place  -- before `_job->unlock`
  unlocked : Place  -- before `if ( _del_job )`
  resetting : Place  -- before `_job = NULL`

-- `TPoolThr`; the slot has `_job`, `_data_ptr` and `_del_job`, `none` where `_job` is `NULL`.
pub record Thread : Type 0 where
  pub place : Place
  pub slot : Option Task

-- Where a caller stands.
pub data Caller : Type 0 where
  free : Caller
  getting : Task → Caller  -- `get_idle`, before the test
  get_asleep : Task → Caller
  got : Task → ℕ → Caller  -- before `job->lock`, with the thread
  assigning : Task → ℕ → Caller  -- before `thr->run_job`
  syncing : ℕ → Caller  -- before `job->lock` in `sync`
  synced : ℕ → Caller  -- before `job->unlock` in `sync`
  all_testing : Caller  -- `sync_all`, before the test
  all_asleep : Caller

-- The logs name what was asked of `run`, what was run, and what was deleted, the last one first.
pub record System : Type 0 where
  pub idle : List ℕ  -- `_idle_threads`
  pub thread : ℕ → Thread  -- `_threads`
  pub caller : ℕ → Caller
  pub locked : ℕ → Bool  -- the `_sync_mutex` of each job
  pub asked : List Task
  pub done : List Task
  pub deleted : List ℕ

abbrev pub has : ℕ → List ℕ → Bool
has t [] = false
has t (x ∷ xs) = (x == t) || has t xs

-- The list after `append_idle ( t )`, which says nothing where it finds the thread.
abbrev pub append_idle : ℕ → List ℕ → List ℕ
append_idle t ts = if has t ts then ts else ts ++ t ∷ []

-- `_work_cond.signal ( )` wakes the thread, which alone waits on it.
abbrev pub work_signalled : Place → Place
work_signalled dozing = waiting
work_signalled p = p

-- `TPoolThr::run_job`
abbrev pub run_job : Task → Thread → Thread
run_job k w = record w { slot = some k; place = work_signalled w.place }

-- `_job = NULL; _data_ptr = NULL;`
abbrev pub clear_job : Thread → Thread
clear_job w = record { place = top; slot = none }

abbrev pub move : Place → Thread → Thread
move p w = record w { place = p }

-- What a caller that sleeps on `_idle_cond` does when it wakes up.
abbrev pub woken : Caller → Caller
woken (get_asleep k) = getting k
woken all_asleep = all_testing
woken c = c

abbrev pub asleep : Caller → Bool
asleep (get_asleep k) = true
asleep all_asleep = true
asleep _ = false

-- `_idle_cond.signal ( )` wakes one caller that sleeps, where there is one.
pub data Signal (m : ℕ) (f : ℕ → Caller) : (ℕ → Caller) → Type 0 where
  nobody : ((c : ℕ) → c < m → asleep (f c) ≡ false) → Signal m f f
  wakes : (c : ℕ) → c < m → asleep (f c) ≡ true → Signal m f (put f c (woken (f c)))

-- The threads are created, and none has run yet.
abbrev pub start_thread : Thread
start_thread = record { place = top; slot = none }

abbrev pub start : System
start = record {
  idle = [];
  thread = λ _. start_thread;
  caller = λ _. free;
  locked = λ _. false;
  asked = [];
  done = [];
  deleted = [];
}
