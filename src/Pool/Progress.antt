-- ===== src/Pool/Progress.antt =====
-- The number of steps that the threads and callers of the pool (src/common/TThreadPool.cpp) still make
-- by themselves.
use kadpeer.Prelude.{ℕ, ◌+◌, ◌≤◌, ◌<◌, Option, none, some, arith}
use kadpeer.Threads.{sum_below, sum_below-put}
use kadpeer.Pool.{
  Task, Place, top, waiting, dozing, running, ran, unlocked, resetting, Thread, Caller, free,
  getting, get_asleep, got, assigning, syncing, synced, all_testing, all_asleep, System, has,
  run_job, clear_job, move, woken, Signal, nobody, wakes,
}
use kadpeer.Pool.Steps.{ThreadStep, CallerStep}
use kadpeer.Pool.Invariant.{Inv, claimed, assign-placed}

-- The steps that a thread still makes by itself. The one that comes to the list may
-- wake up a caller, and counts for it.
abbrev pub thread_left_at : Place → Option Task → ℕ
thread_left_at dozing o = 0
thread_left_at waiting none = 1
thread_left_at top o = 3
thread_left_at resetting o = 4
thread_left_at unlocked o = 5
thread_left_at ran o = 6
thread_left_at running o = 7
thread_left_at waiting (some k) = 8

abbrev pub thread_left : Thread → ℕ
thread_left w = thread_left_at w.place w.slot

abbrev pub caller_left : Caller → ℕ
caller_left free = 0
caller_left (assigning k t) = 9
caller_left (got k t) = 10
caller_left (get_asleep k) = 11
caller_left (getting k) = 12
caller_left (synced j) = 1
caller_left (syncing j) = 2
caller_left all_asleep = 1
caller_left all_testing = 2

unfoldable pub steps_left : ℕ → ℕ → System → ℕ
steps_left n m s = sum_below thread_left n s.thread + sum_below caller_left m s.caller

caller_left-woken : (c : Caller) → caller_left (woken c) ≤ caller_left c + 1
caller_left-woken c = ground arith

sum_below-Signal :
    {m : ℕ} {f g : ℕ → Caller}
    → Signal m f g
    → sum_below caller_left m g ≤ sum_below caller_left m f + 1
sum_below-Signal (nobody h) = omega arith
sum_below-Signal {m} {f} (wakes c lt h) =
    omega (arith, sum_below-put caller_left m f c (woken (f c)) lt, caller_left-woken (f c))

module _ {n m : ℕ} {s : System} (inv : Inv n m s) where
  open inv use {placed, tidied}

  pub thread-steps_left : {s' : System} → ThreadStep n m s s' → steps_left n m s' < steps_left n m s
  unfolding steps_left
  thread-steps_left (ThreadStep.append t lt at off sig) = ground (
    arith,
    tidied t,
    sum_below-put thread_left n s.thread t (move waiting (s.thread t)) lt,
    sum_below-Signal sig,
  )
  thread-steps_left (ThreadStep.append_again t lt at on) =
      ground
        (arith, tidied t, sum_below-put thread_left n s.thread t (move waiting (s.thread t)) lt)
  thread-steps_left (ThreadStep.doze t lt at has) =
      ground (arith, tidied t, sum_below-put thread_left n s.thread t (move dozing (s.thread t)) lt)
  thread-steps_left (ThreadStep.take t lt at has) =
      ground
        (arith, tidied t, sum_below-put thread_left n s.thread t (move running (s.thread t)) lt)
  thread-steps_left (ThreadStep.run t lt at has) =
      ground (arith, tidied t, sum_below-put thread_left n s.thread t (move ran (s.thread t)) lt)
  thread-steps_left (ThreadStep.unlock t lt at has) =
      ground
        (arith, tidied t, sum_below-put thread_left n s.thread t (move unlocked (s.thread t)) lt)
  thread-steps_left (ThreadStep.delete t lt at has) =
      ground
        (arith, tidied t, sum_below-put thread_left n s.thread t (move resetting (s.thread t)) lt)
  thread-steps_left (ThreadStep.reset t lt at) =
      ground (arith, tidied t, sum_below-put thread_left n s.thread t (clear_job (s.thread t)) lt)

  pub caller-steps_left : {s' : System} → CallerStep n m s s' → steps_left n m s' < steps_left n m s
  unfolding steps_left
  caller-steps_left (CallerStep.get_none {k} c lt at empty) =
      ground (arith, sum_below-put caller_left m s.caller c (get_asleep k) lt)
  caller-steps_left (CallerStep.get {k} {t} {ts} c lt at item) =
      ground (arith, sum_below-put caller_left m s.caller c (got k t) lt)
  caller-steps_left (CallerStep.lock {k} {t} c lt at open_) =
      ground (arith, sum_below-put caller_left m s.caller c (assigning k t) lt)
  caller-steps_left (CallerStep.assign {k} {t} c lt at) = ground (
    arith,
    sum_below-put caller_left m s.caller c free lt,
    sum_below-put thread_left n s.thread t (run_job k (s.thread t)) (claimed inv c lt at),
    assign-placed inv c lt at,
  )
  caller-steps_left (CallerStep.sync_lock {j} c lt at open_) =
      ground (arith, sum_below-put caller_left m s.caller c (synced j) lt)
  caller-steps_left (CallerStep.sync_unlock {j} c lt at) =
      ground (arith, sum_below-put caller_left m s.caller c free lt)
  caller-steps_left (CallerStep.all_wait c lt at short) =
      ground (arith, sum_below-put caller_left m s.caller c all_asleep lt)
  caller-steps_left (CallerStep.all_return c lt at full) =
      ground (arith, sum_below-put caller_left m s.caller c free lt)
