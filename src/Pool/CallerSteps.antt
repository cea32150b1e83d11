-- ===== src/Pool/CallerSteps.antt =====
-- The steps of the callers at work keep each field of the invariant.
use kadpeer.Prelude.{ℕ, ◌+◌, ◌≡◌, ◌≤◌, ◌<◌, true, arith}
use kadpeer.Threads.{sum_below, sum_below-put, le-sum_below}
use kadpeer.Pool.{Task, free, get_asleep, got, assigning, synced, all_asleep, System, run_job}
use kadpeer.Pool.Steps.{CallerStep}
use kadpeer.Pool.Counts.{
  one_if, occurs, claims, busy, pending, unfinished, weigh, caller_keeps, thread_keeps,
}
use kadpeer.Pool.Invariant.{tidy, Inv, claimed, assign-placed}

module _ {n m : ℕ} {s : System} (inv : Inv n m s) where
  open inv use {placed, range, tidied, kept, mutex}

  pub caller-placed :
      {s' : System}
      → CallerStep n m s s'
      → (u : ℕ) → u < n
      → occurs u s'.idle + sum_below (claims u) m s'.caller + busy (s'.thread u) ≡ 1
  caller-placed (CallerStep.get_none {k} c lt at empty) u low =
      ground (arith, placed u, sum_below-put (claims u) m s.caller c (get_asleep k) lt)
  caller-placed (CallerStep.get {k} {t} {ts} c lt at item) u low =
      ground (arith, placed u, sum_below-put (claims u) m s.caller c (got k t) lt)
  caller-placed (CallerStep.lock {k} {t} c lt at open_) u low =
      ground (arith, placed u, sum_below-put (claims u) m s.caller c (assigning k t) lt)
  caller-placed (CallerStep.assign {k} {t} c lt at) u low = ground (
    arith,
    placed u,
    sum_below-put (claims u) m s.caller c (free) lt,
    le-sum_below (claims u) m s.caller c lt,
  )
  caller-placed (CallerStep.sync_lock {j} c lt at open_) u low =
      ground (arith, placed u, sum_below-put (claims u) m s.caller c (synced j) lt)
  caller-placed (CallerStep.sync_unlock {j} c lt at) u low =
      ground (arith, placed u, sum_below-put (claims u) m s.caller c (free) lt)
  caller-placed (CallerStep.all_wait c lt at short) u low =
      ground (arith, placed u, sum_below-put (claims u) m s.caller c (all_asleep) lt)
  caller-placed (CallerStep.all_return c lt at full) u low =
      ground (arith, placed u, sum_below-put (claims u) m s.caller c (free) lt)

  pub caller-range :
      {s' : System}
      → CallerStep n m s s'
      → (u : ℕ) → n ≤ u
      → occurs u s'.idle + sum_below (claims u) m s'.caller ≡ 0
  caller-range (CallerStep.get_none {k} c lt at empty) u high =
      ground (arith, range u, sum_below-put (claims u) m s.caller c (get_asleep k) lt)
  caller-range (CallerStep.get {k} {t} {ts} c lt at item) u high =
      ground (arith, range u, sum_below-put (claims u) m s.caller c (got k t) lt)
  caller-range (CallerStep.lock {k} {t} c lt at open_) u high =
      ground (arith, range u, sum_below-put (claims u) m s.caller c (assigning k t) lt)
  caller-range (CallerStep.assign {k} {t} c lt at) u high =
      ground (arith, range u, sum_below-put (claims u) m s.caller c (free) lt)
  caller-range (CallerStep.sync_lock {j} c lt at open_) u high =
      ground (arith, range u, sum_below-put (claims u) m s.caller c (synced j) lt)
  caller-range (CallerStep.sync_unlock {j} c lt at) u high =
      ground (arith, range u, sum_below-put (claims u) m s.caller c (free) lt)
  caller-range (CallerStep.all_wait c lt at short) u high =
      ground (arith, range u, sum_below-put (claims u) m s.caller c (all_asleep) lt)
  caller-range (CallerStep.all_return c lt at full) u high =
      ground (arith, range u, sum_below-put (claims u) m s.caller c (free) lt)

  pub caller-tidied : {s' : System} → CallerStep n m s s' → (u : ℕ) → tidy (s'.thread u) ≡ true
  caller-tidied (CallerStep.get_none {k} c lt at empty) u = tidied u
  caller-tidied (CallerStep.get {k} {t} {ts} c lt at item) u = tidied u
  caller-tidied (CallerStep.lock {k} {t} c lt at open_) u = tidied u
  caller-tidied (CallerStep.assign {k} {t} c lt at) u =
      ground (arith, tidied u, assign-placed inv c lt at)
  caller-tidied (CallerStep.sync_lock {j} c lt at open_) u = tidied u
  caller-tidied (CallerStep.sync_unlock {j} c lt at) u = tidied u
  caller-tidied (CallerStep.all_wait c lt at short) u = tidied u
  caller-tidied (CallerStep.all_return c lt at full) u = tidied u

  pub caller-kept :
      {s' : System}
      → CallerStep n m s s'
      → (v : Task → ℕ)
      → weigh v s'.asked
        ≡ sum_below (pending v) m s'.caller + sum_below (unfinished v) n s'.thread + weigh v s'.done
  caller-kept (CallerStep.get_none {k} c lt at empty) v =
      ground (arith, kept v, sum_below-put (pending v) m s.caller c (get_asleep k) lt)
  caller-kept (CallerStep.get {k} {t} {ts} c lt at item) v =
      ground (arith, kept v, sum_below-put (pending v) m s.caller c (got k t) lt)
  caller-kept (CallerStep.lock {k} {t} c lt at open_) v =
      ground (arith, kept v, sum_below-put (pending v) m s.caller c (assigning k t) lt)
  caller-kept (CallerStep.assign {k} {t} c lt at) v = ground (
    arith,
    kept v,
    sum_below-put (pending v) m s.caller c (free) lt,
    sum_below-put (unfinished v) n s.thread t (run_job k (s.thread t)) (claimed inv c lt at),
    assign-placed inv c lt at,
  )
  caller-kept (CallerStep.sync_lock {j} c lt at open_) v =
      ground (arith, kept v, sum_below-put (pending v) m s.caller c (synced j) lt)
  caller-kept (CallerStep.sync_unlock {j} c lt at) v =
      ground (arith, kept v, sum_below-put (pending v) m s.caller c (free) lt)
  caller-kept (CallerStep.all_wait c lt at short) v =
      ground (arith, kept v, sum_below-put (pending v) m s.caller c (all_asleep) lt)
  caller-kept (CallerStep.all_return c lt at full) v =
      ground (arith, kept v, sum_below-put (pending v) m s.caller c (free) lt)

  pub caller-mutex :
      {s' : System}
      → CallerStep n m s s'
      → (u : ℕ)
      → one_if (s'.locked u)
        ≡ sum_below (caller_keeps u) m s'.caller + sum_below (thread_keeps u) n s'.thread
  caller-mutex (CallerStep.get_none {k} c lt at empty) u =
      ground (arith, mutex u, sum_below-put (caller_keeps u) m s.caller c (get_asleep k) lt)
  caller-mutex (CallerStep.get {k} {t} {ts} c lt at item) u =
      ground (arith, mutex u, sum_below-put (caller_keeps u) m s.caller c (got k t) lt)
  caller-mutex (CallerStep.lock {k} {t} c lt at open_) u =
      ground (arith, mutex u, sum_below-put (caller_keeps u) m s.caller c (assigning k t) lt)
  caller-mutex (CallerStep.assign {k} {t} c lt at) u = ground (
    arith,
    mutex u,
    sum_below-put (caller_keeps u) m s.caller c (free) lt,
    sum_below-put (thread_keeps u) n s.thread t (run_job k (s.thread t)) (claimed inv c lt at),
    assign-placed inv c lt at,
  )
  caller-mutex (CallerStep.sync_lock {j} c lt at open_) u =
      ground (arith, mutex u, sum_below-put (caller_keeps u) m s.caller c (synced j) lt)
  caller-mutex (CallerStep.sync_unlock {j} c lt at) u = ground (
    arith,
    mutex u,
    sum_below-put (caller_keeps u) m s.caller c (free) lt,
    le-sum_below (caller_keeps u) m s.caller c lt,
  )
  caller-mutex (CallerStep.all_wait c lt at short) u =
      ground (arith, mutex u, sum_below-put (caller_keeps u) m s.caller c (all_asleep) lt)
  caller-mutex (CallerStep.all_return c lt at full) u =
      ground (arith, mutex u, sum_below-put (caller_keeps u) m s.caller c (free) lt)
