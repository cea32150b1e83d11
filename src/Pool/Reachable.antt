-- ===== src/Pool/Reachable.antt =====
-- What holds of the pool in every state that its threads and callers reach.
use kadpeer.Prelude.{ℕ, ◌+◌, ◌≡◌, refl, arith}
use kadpeer.Threads.{sum_below, sum_below-eq_zero}
use kadpeer.Pool.Counts.{claims, pending, unfinished, weigh, caller_keeps, thread_keeps}
use kadpeer.Pool.{Task, free, System, start_thread, start}
use kadpeer.Pool.Steps.{Step, by_thread, by_caller, outside, Reach, started, later}
use kadpeer.Pool.Invariant.{Inv}
use kadpeer.Pool.ThreadSteps.{thread-placed, thread-range, thread-tidied, thread-kept, thread-mutex}
use kadpeer.Pool.CallerSteps.{caller-placed, caller-range, caller-tidied, caller-kept, caller-mutex}
use kadpeer.Pool.Calls.{Outside-placed, Outside-range, Outside-tidied, Outside-kept, Outside-mutex}

pub Step-Inv : {n m : ℕ} {s t : System} → Inv n m s → Step n m s t → Inv n m t
Step-Inv inv (by_thread st) = record {
  placed = thread-placed inv st;
  range = thread-range inv st;
  tidied = thread-tidied inv st;
  kept = thread-kept inv st;
  mutex = thread-mutex inv st;
}
Step-Inv inv (by_caller st) = record {
  placed = caller-placed inv st;
  range = caller-range inv st;
  tidied = caller-tidied inv st;
  kept = caller-kept inv st;
  mutex = caller-mutex inv st;
}
Step-Inv inv (outside st) = record {
  placed = Outside-placed inv st;
  range = Outside-range inv st;
  tidied = Outside-tidied inv st;
  kept = Outside-kept inv st;
  mutex = Outside-mutex inv st;
}

Inv-start : (n m : ℕ) → Inv n m start
Inv-start n m = record {
  placed = λ t low. omega (arith, sum_below-eq_zero (claims t) m (λ _. free) (λ c lt. refl));
  range = λ t high. omega (arith, sum_below-eq_zero (claims t) m (λ _. free) (λ c lt. refl));
  tidied = λ t. refl;
  kept = λ v. omega (
    arith,
    sum_below-eq_zero (pending v) m (λ _. free) (λ c lt. refl),
    sum_below-eq_zero (unfinished v) n (λ _. start_thread) (λ t lt. refl),
  );
  mutex = λ j. omega (
    arith,
    sum_below-eq_zero (caller_keeps j) m (λ _. free) (λ c lt. refl),
    sum_below-eq_zero (thread_keeps j) n (λ _. start_thread) (λ t lt. refl),
  );
}

pub Reach-Inv : {n m : ℕ} {s : System} → Reach n m s → Inv n m s
Reach-Inv {n} {m} started = Inv-start n m
Reach-Inv (later r st) = Step-Inv (Reach-Inv r) st

-- No job is lost and none is run twice: for every weight of the jobs, those that were asked for weigh
-- as much as those that callers still hold, those that threads have not run yet, and those that were
-- run.
pub asked-accounted :
    {n m : ℕ} {s : System} (v : Task → ℕ)
    → Reach n m s
    → weigh v s.asked
      ≡ sum_below (pending v) m s.caller + sum_below (unfinished v) n s.thread + weigh v s.done
asked-accounted v r = (Reach-Inv r).kept v
