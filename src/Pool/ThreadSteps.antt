-- ===== src/Pool/ThreadSteps.antt =====
-- The steps of the threads keep each field of the invariant.
use kadpeer.Prelude.{ℕ, ◌+◌, ◌≡◌, ◌≤◌, ◌<◌, true, arith}
use kadpeer.Threads.{sum_below, sum_below-put, le-sum_below}
use kadpeer.Pool.{
  Task, waiting, dozing, running, ran, unlocked, resetting, System, has, clear_job, move,
}
use kadpeer.Pool.Steps.{ThreadStep}
use kadpeer.Pool.Counts.{
  one_if, occurs, occurs-has, occurs-append, claims, busy, pending, unfinished, weigh, caller_keeps,
  thread_keeps, claims-woken, pending-woken, keeps-woken, sum_below-woken,
}
use kadpeer.Pool.Invariant.{tidy, Inv}

module _ {n m : ℕ} {s : System} (inv : Inv n m s) where
  open inv use {placed, range, tidied, kept, mutex}

  pub thread-placed :
      {s' : System}
      → ThreadStep n m s s'
      → (u : ℕ) → u < n
      → occurs u s'.idle + sum_below (claims u) m s'.caller + busy (s'.thread u) ≡ 1
  thread-placed (ThreadStep.append t lt at off sig) u low = ground (
    arith,
    placed u,
    tidied t,
    occurs-append u s.idle t,
    sum_below-woken (claims u) (claims-woken u) sig,
  )
  thread-placed (ThreadStep.append_again t lt at on) u low =
      ground (arith, placed u, placed t, tidied t, occurs-has t s.idle)
  thread-placed (ThreadStep.doze t lt at has) u low = ground (arith, placed u)
  thread-placed (ThreadStep.take t lt at has) u low = ground (arith, placed u)
  thread-placed (ThreadStep.run t lt at has) u low = ground (arith, placed u)
  thread-placed (ThreadStep.unlock t lt at has) u low = ground (arith, placed u)
  thread-placed (ThreadStep.delete t lt at has) u low = ground (arith, placed u)
  thread-placed (ThreadStep.reset t lt at) u low = ground (arith, placed u, tidied t)

  pub thread-range :
      {s' : System}
      → ThreadStep n m s s'
      → (u : ℕ) → n ≤ u
      → occurs u s'.idle + sum_below (claims u) m s'.caller ≡ 0
  thread-range (ThreadStep.append t lt at off sig) u high =
      ground
        (arith, range u, occurs-append u s.idle t, sum_below-woken (claims u) (claims-woken u) sig)
  thread-range (ThreadStep.append_again t lt at on) u high = ground (arith, range u)
  thread-range (ThreadStep.doze t lt at has) u high = ground (arith, range u)
  thread-range (ThreadStep.take t lt at has) u high = ground (arith, range u)
  thread-range (ThreadStep.run t lt at has) u high = ground (arith, range u)
  thread-range (ThreadStep.unlock t lt at has) u high = ground (arith, range u)
  thread-range (ThreadStep.delete t lt at has) u high = ground (arith, range u)
  thread-range (ThreadStep.reset t lt at) u high = ground (arith, range u)

  pub thread-tidied : {s' : System} → ThreadStep n m s s' → (u : ℕ) → tidy (s'.thread u) ≡ true
  thread-tidied (ThreadStep.append t lt at off sig) u = ground (arith, tidied u, tidied t)
  thread-tidied (ThreadStep.append_again t lt at on) u = ground (arith, tidied u, tidied t)
  thread-tidied (ThreadStep.doze t lt at has) u = ground (arith, tidied u, tidied t)
  thread-tidied (ThreadStep.take t lt at has) u = ground (arith, tidied u, tidied t)
  thread-tidied (ThreadStep.run t lt at has) u = ground (arith, tidied u, tidied t)
  thread-tidied (ThreadStep.unlock t lt at has) u = ground (arith, tidied u, tidied t)
  thread-tidied (ThreadStep.delete t lt at has) u = ground (arith, tidied u, tidied t)
  thread-tidied (ThreadStep.reset t lt at) u = ground (arith, tidied u, tidied t)

  pub thread-kept :
      {s' : System}
      → ThreadStep n m s s'
      → (v : Task → ℕ)
      → weigh v s'.asked
        ≡ sum_below (pending v) m s'.caller + sum_below (unfinished v) n s'.thread + weigh v s'.done
  thread-kept (ThreadStep.append t lt at off sig) v = ground (
    arith,
    kept v,
    sum_below-put (unfinished v) n s.thread t (move waiting (s.thread t)) lt,
    tidied t,
    sum_below-woken (pending v) (pending-woken v) sig,
  )
  thread-kept (ThreadStep.append_again t lt at on) v = ground (
    arith,
    kept v,
    sum_below-put (unfinished v) n s.thread t (move waiting (s.thread t)) lt,
    tidied t,
  )
  thread-kept (ThreadStep.doze t lt at has) v = ground (
    arith,
    kept v,
    sum_below-put (unfinished v) n s.thread t (move dozing (s.thread t)) lt,
    tidied t,
  )
  thread-kept (ThreadStep.take t lt at has) v = ground (
    arith,
    kept v,
    sum_below-put (unfinished v) n s.thread t (move running (s.thread t)) lt,
    tidied t,
  )
  thread-kept (ThreadStep.run t lt at has) v = ground (
    arith,
    kept v,
    sum_below-put (unfinished v) n s.thread t (move ran (s.thread t)) lt,
    tidied t,
  )
  thread-kept (ThreadStep.unlock t lt at has) v = ground (
    arith,
    kept v,
    sum_below-put (unfinished v) n s.thread t (move unlocked (s.thread t)) lt,
    tidied t,
  )
  thread-kept (ThreadStep.delete t lt at has) v = ground (
    arith,
    kept v,
    sum_below-put (unfinished v) n s.thread t (move resetting (s.thread t)) lt,
    tidied t,
  )
  thread-kept (ThreadStep.reset t lt at) v = ground (
    arith,
    kept v,
    sum_below-put (unfinished v) n s.thread t (clear_job (s.thread t)) lt,
    tidied t,
  )

  pub thread-mutex :
      {s' : System}
      → ThreadStep n m s s'
      → (u : ℕ)
      → one_if (s'.locked u)
        ≡ sum_below (caller_keeps u) m s'.caller + sum_below (thread_keeps u) n s'.thread
  thread-mutex (ThreadStep.append t lt at off sig) u = ground (
    arith,
    mutex u,
    sum_below-put (thread_keeps u) n s.thread t (move waiting (s.thread t)) lt,
    tidied t,
    sum_below-woken (caller_keeps u) (keeps-woken u) sig,
  )
  thread-mutex (ThreadStep.append_again t lt at on) u = ground (
    arith,
    mutex u,
    sum_below-put (thread_keeps u) n s.thread t (move waiting (s.thread t)) lt,
    tidied t,
  )
  thread-mutex (ThreadStep.doze t lt at has) u = ground (
    arith,
    mutex u,
    sum_below-put (thread_keeps u) n s.thread t (move dozing (s.thread t)) lt,
    tidied t,
  )
  thread-mutex (ThreadStep.take t lt at has) u = ground (
    arith,
    mutex u,
    sum_below-put (thread_keeps u) n s.thread t (move running (s.thread t)) lt,
    tidied t,
  )
  thread-mutex (ThreadStep.run t lt at has) u = ground (
    arith,
    mutex u,
    sum_below-put (thread_keeps u) n s.thread t (move ran (s.thread t)) lt,
    tidied t,
  )
  thread-mutex (ThreadStep.unlock t lt at has) u = ground (
    arith,
    mutex u,
    sum_below-put (thread_keeps u) n s.thread t (move unlocked (s.thread t)) lt,
    tidied t,
    le-sum_below (thread_keeps u) n s.thread t lt,
  )
  thread-mutex (ThreadStep.delete t lt at has) u = ground (
    arith,
    mutex u,
    sum_below-put (thread_keeps u) n s.thread t (move resetting (s.thread t)) lt,
    tidied t,
  )
  thread-mutex (ThreadStep.reset t lt at) u = ground (
    arith,
    mutex u,
    sum_below-put (thread_keeps u) n s.thread t (clear_job (s.thread t)) lt,
    tidied t,
  )
