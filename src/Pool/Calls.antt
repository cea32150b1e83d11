-- ===== src/Pool/Calls.antt =====
-- New calls, and callers who wake up, keep each field of the invariant.
use kadpeer.Prelude.{ℕ, ◌+◌, ◌≡◌, ◌≤◌, ◌<◌, true, arith}
use kadpeer.Threads.{sum_below, sum_below-put}
use kadpeer.Pool.{Task, getting, syncing, all_testing, System, woken}
use kadpeer.Pool.Steps.{Outside}
use kadpeer.Pool.Counts.{
  one_if, occurs, claims, busy, pending, unfinished, weigh, caller_keeps, thread_keeps,
  claims-woken, pending-woken, keeps-woken,
}
use kadpeer.Pool.Invariant.{tidy, Inv}

module _ {n m : ℕ} {s : System} (inv : Inv n m s) where
  open inv use {placed, range, tidied, kept, mutex}

  pub Outside-placed :
      {s' : System}
      → Outside m s s'
      → (u : ℕ) → u < n
      → occurs u s'.idle + sum_below (claims u) m s'.caller + busy (s'.thread u) ≡ 1
  Outside-placed (Outside.call_run c k lt at) u low =
      ground (arith, placed u, sum_below-put (claims u) m s.caller c (getting k) lt)
  Outside-placed (Outside.call_sync c j lt at) u low =
      ground (arith, placed u, sum_below-put (claims u) m s.caller c (syncing j) lt)
  Outside-placed (Outside.call_sync_all c lt at) u low =
      ground (arith, placed u, sum_below-put (claims u) m s.caller c (all_testing) lt)
  Outside-placed (Outside.wake c lt at) u low = ground (
    arith,
    placed u,
    sum_below-put (claims u) m s.caller c (woken (s.caller c)) lt,
    claims-woken u (s.caller c),
  )

  pub Outside-range :
      {s' : System}
      → Outside m s s'
      → (u : ℕ) → n ≤ u
      → occurs u s'.idle + sum_below (claims u) m s'.caller ≡ 0
  Outside-range (Outside.call_run c k lt at) u high =
      ground (arith, range u, sum_below-put (claims u) m s.caller c (getting k) lt)
  Outside-range (Outside.call_sync c j lt at) u high =
      ground (arith, range u, sum_below-put (claims u) m s.caller c (syncing j) lt)
  Outside-range (Outside.call_sync_all c lt at) u high =
      ground (arith, range u, sum_below-put (claims u) m s.caller c (all_testing) lt)
  Outside-range (Outside.wake c lt at) u high = ground (
    arith,
    range u,
    sum_below-put (claims u) m s.caller c (woken (s.caller c)) lt,
    claims-woken u (s.caller c),
  )

  pub Outside-tidied : {s' : System} → Outside m s s' → (u : ℕ) → tidy (s'.thread u) ≡ true
  Outside-tidied (Outside.call_run c k lt at) u = tidied u
  Outside-tidied (Outside.call_sync c j lt at) u = tidied u
  Outside-tidied (Outside.call_sync_all c lt at) u = tidied u
  Outside-tidied (Outside.wake c lt at) u = tidied u

  pub Outside-kept :
      {s' : System}
      → Outside m s s'
      → (v : Task → ℕ)
      → weigh v s'.asked
        ≡ sum_below (pending v) m s'.caller + sum_below (unfinished v) n s'.thread + weigh v s'.done
  Outside-kept (Outside.call_run c k lt at) v =
      ground (arith, kept v, sum_below-put (pending v) m s.caller c (getting k) lt)
  Outside-kept (Outside.call_sync c j lt at) v =
      ground (arith, kept v, sum_below-put (pending v) m s.caller c (syncing j) lt)
  Outside-kept (Outside.call_sync_all c lt at) v =
      ground (arith, kept v, sum_below-put (pending v) m s.caller c (all_testing) lt)
  Outside-kept (Outside.wake c lt at) v = ground (
    arith,
    kept v,
    sum_below-put (pending v) m s.caller c (woken (s.caller c)) lt,
    pending-woken v (s.caller c),
  )

  pub Outside-mutex :
      {s' : System}
      → Outside m s s'
      → (u : ℕ)
      → one_if (s'.locked u)
        ≡ sum_below (caller_keeps u) m s'.caller + sum_below (thread_keeps u) n s'.thread
  Outside-mutex (Outside.call_run c k lt at) u =
      ground (arith, mutex u, sum_below-put (caller_keeps u) m s.caller c (getting k) lt)
  Outside-mutex (Outside.call_sync c j lt at) u =
      ground (arith, mutex u, sum_below-put (caller_keeps u) m s.caller c (syncing j) lt)
  Outside-mutex (Outside.call_sync_all c lt at) u =
      ground (arith, mutex u, sum_below-put (caller_keeps u) m s.caller c (all_testing) lt)
  Outside-mutex (Outside.wake c lt at) u = ground (
    arith,
    mutex u,
    sum_below-put (caller_keeps u) m s.caller c (woken (s.caller c)) lt,
    keeps-woken u (s.caller c),
  )
