-- ===== src/Tests/Pools.antt =====
-- A pool with one thread, calls of the functions on the global pool, and the theorems on both.
use kadpeer.Prelude.{
  ℕ, ◌+◌, ◌≡◌, ◌<◌, refl, Bool, true, false, [], ◌∷◌, arith, ◌⊎◌, inl, inr, List, none, some, ◌↔◌,
}
use kadpeer.GlobalPool.{GlobalCall, init, run, sync_all, done, apply_all, no_pool, Globals}
use kadpeer.GlobalPool.Uses.{Phase, phase_after, unmade, apply_all_iff}
use kadpeer.Threads.{put, sum_below}
use kadpeer.Pool.{
  dozing, Task, Caller, free, getting, get_asleep, all_asleep, asleep, System, start, nobody, wakes,
}
use kadpeer.Pool.Steps.{
  ThreadStep, CallerStep, Outside, Step, by_thread, by_caller, outside, Reach, started, later,
}
use kadpeer.Pool.Counts.{weigh, pending, unfinished, occurs, busy}
use kadpeer.Pool.Waiting.{looking, unlocked_yet, is_job, sync_all-done, sync-done}
use kadpeer.Pool.Reachable.{asked-accounted}
use kadpeer.Pool.Liveness.{Returns, Reach-Returns}

abbrev task : ℕ → Task
task j = record { job = j; ptr = 0; del = false }

abbrev Reached : ℕ → Type 0
Reached m = (s : System) × Reach 1 m s

abbrev after : {m : ℕ} (r : Reached m) {t : System} → Step 1 m r.0 t → Reached m
after r {t} st = (t, later r.1 st)

first_asks : (c : ℕ) → c < 2 → asleep (put (λ _. free) 0 (getting (task 7)) c) ≡ false
first_asks c lt = ground arith

-- The job 7 is given to the thread.
abbrev given : Reached 2
given =
    let a : Reached 2 =
      after (start, started) (outside (Outside.call_run 0 (task 7) (omega arith) refl)) in
    let b : Reached 2 =
      after a (by_thread (ThreadStep.append 0 (omega arith) refl refl (nobody first_asks))) in
    let c : Reached 2 = after b (by_caller (CallerStep.get 0 (omega arith) refl refl)) in
    let d : Reached 2 = after c (by_caller (CallerStep.lock 0 (omega arith) refl refl)) in
    after d (by_caller (CallerStep.assign 0 (omega arith) refl))

-- The first caller waits for all jobs, the second one for a thread.
abbrev both_asleep : Reached 2
both_asleep =
    let a : Reached 2 = after given (outside (Outside.call_sync_all 0 (omega arith) refl)) in
    let b : Reached 2 = after a (by_caller (CallerStep.all_wait 0 (omega arith) refl refl)) in
    let c : Reached 2 = after b (outside (Outside.call_run 1 (task 8) (omega arith) refl)) in
    after c (by_caller (CallerStep.get_none 1 (omega arith) refl refl))

-- The thread has run its job.
abbrev finished : Reached 2
finished =
    let a : Reached 2 = after both_asleep (by_thread (ThreadStep.take 0 (omega arith) refl refl)) in
    let b : Reached 2 = after a (by_thread (ThreadStep.run 0 (omega arith) refl refl)) in
    let c : Reached 2 = after b (by_thread (ThreadStep.unlock 0 (omega arith) refl refl)) in
    let d : Reached 2 = after c (by_thread (ThreadStep.delete 0 (omega arith) refl refl)) in
    after d (by_thread (ThreadStep.reset 0 (omega arith) refl))

-- Its signal wakes the first caller, who returns.
abbrev first_woken : Reached 2
first_woken =
    after finished
      (by_thread (ThreadStep.append 0 (omega arith) refl refl (wakes 0 (omega arith) refl)))

abbrev first_returned : Reached 2
first_returned = after first_woken (by_caller (CallerStep.all_return 0 (omega arith) refl refl))

-- The thread waits for a job.
abbrev settled : Reached 2
settled = after first_returned (by_thread (ThreadStep.doze 0 (omega arith) refl refl))

no_thread :
    {n m : ℕ} (s : System) {t : System}
    → ((u : ℕ) → u < n → (s.thread u).place ≡ dozing)
    → ThreadStep n m s t
    → ⊥
no_thread s rest (ThreadStep.append u lt at off sig) = ground (arith, rest u)
no_thread s rest (ThreadStep.append_again u lt at on) = ground (arith, rest u)
no_thread s rest (ThreadStep.doze u lt at has) = ground (arith, rest u)
no_thread s rest (ThreadStep.take u lt at has) = ground (arith, rest u)
no_thread s rest (ThreadStep.run u lt at has) = ground (arith, rest u)
no_thread s rest (ThreadStep.unlock u lt at has) = ground (arith, rest u)
no_thread s rest (ThreadStep.delete u lt at has) = ground (arith, rest u)
no_thread s rest (ThreadStep.reset u lt at) = ground (arith, rest u)

abbrev at_work : Caller → Bool
at_work free = false
at_work (get_asleep k) = false
at_work all_asleep = false
at_work c = true

no_caller :
    {n m : ℕ} (s : System) {t : System}
    → ((c : ℕ) → c < m → at_work (s.caller c) ≡ false)
    → CallerStep n m s t
    → ⊥
no_caller s rest (CallerStep.get_none c lt at empty) = ground (arith, rest c)
no_caller s rest (CallerStep.get c lt at item) = ground (arith, rest c)
no_caller s rest (CallerStep.lock c lt at open_) = ground (arith, rest c)
no_caller s rest (CallerStep.assign c lt at) = ground (arith, rest c)
no_caller s rest (CallerStep.sync_lock c lt at open_) = ground (arith, rest c)
no_caller s rest (CallerStep.sync_unlock c lt at) = ground (arith, rest c)
no_caller s rest (CallerStep.all_wait c lt at short) = ground (arith, rest c)
no_caller s rest (CallerStep.all_return c lt at full) = ground (arith, rest c)

-- The second caller sleeps while the thread is idle, and no step of the threads or the callers is left.
lost_wakeup :
    (settled.0.caller 1 ≡ get_asleep (task 8))
    × (settled.0.idle ≡ 0 ∷ [])
    × ((t : System) → (ThreadStep 1 2 settled.0 t ⊎ CallerStep 1 2 settled.0 t) → ⊥)
lost_wakeup = (
  refl,
  refl,
  λ t st. elim st [
    | inl th ↦ no_thread settled.0 (λ u low. ground arith) th
    | inr ca ↦ no_caller settled.0 (λ c low. ground arith) ca
  ],
)

asked-accounted_example :
    weigh (λ k. k.job) first_returned.0.asked
    ≡ sum_below (pending (λ k. k.job)) 2 first_returned.0.caller
      + sum_below (unfinished (λ k. k.job)) 1 first_returned.0.thread
      + weigh (λ k. k.job) first_returned.0.done
asked-accounted_example = asked-accounted (λ k. k.job) first_returned.1

sync_all-done_example :
    ((t : ℕ) → t < 1 → (occurs t first_woken.0.idle ≡ 1) × (busy (first_woken.0.thread t) ≡ 0))
    × (weigh (is_job 8) first_woken.0.asked
        ≡ sum_below (looking (is_job 8)) 2 first_woken.0.caller
          + weigh (is_job 8) first_woken.0.done)
sync_all-done_example = sync_all-done (is_job 8) first_woken.1 refl

sync-done_example :
    weigh (is_job 7) finished.0.asked
    ≡ sum_below (unlocked_yet (is_job 7)) 2 finished.0.caller + weigh (is_job 7) finished.0.done
sync-done_example = sync-done 7 finished.1 refl

-- One caller asks for the job 7.
abbrev alone : Reached 1
alone = after (start, started) (outside (Outside.call_run 0 (task 7) (omega arith) refl))

Reach-Returns_example : Returns 1 alone.0
Reach-Returns_example = Reach-Returns (omega arith) alone.1

-- The pool is made twice before it is used.
abbrev global_calls : List GlobalCall
global_calls = init ∷ init ∷ run (some 0) ∷ sync_all ∷ done ∷ run none ∷ []

apply_all_iff_example :
    ((g : Globals) × (apply_all global_calls no_pool ≡ some g))
    ↔ ((p : Phase) × (phase_after global_calls unmade ≡ some p))
apply_all_iff_example = apply_all_iff global_calls
