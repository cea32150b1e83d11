-- ===== src/Pool/Steps.antt =====
-- The steps of the pool (`TPoolThr::run`, and `run`, `sync` and `sync_all` of src/common/TThreadPool.cpp),
-- and the states that they reach.
use kadpeer.Prelude.{
  ℕ, ◌<◌, ◌≡◌, true, false, some, none, List, [], ◌∷◌, length, ltb, if◌then◌else◌,
}
use kadpeer.Threads.{put}
use kadpeer.Pool.{
  Task, top, waiting, dozing, running, ran, unlocked, resetting, Caller, free, getting, get_asleep,
  got, assigning, syncing, synced, all_testing, all_asleep, System, has, append_idle, run_job,
  clear_job, move, woken, asleep, Signal, start,
}

-- A step of one of the `n` threads.
pub data ThreadStep (n m : ℕ) (s : System) : System → Type 0 where
  append :
      {g : ℕ → Caller} (t : ℕ)
      → t < n
      → (s.thread t).place ≡ top
      → has t s.idle ≡ false
      → Signal m s.caller g
      → ThreadStep n m s (record s {
        idle = append_idle t s.idle;
        thread = put s.thread t (move waiting (s.thread t));
        caller = g;
      })
  append_again :
      (t : ℕ)
      → t < n
      → (s.thread t).place ≡ top
      → has t s.idle ≡ true
      → ThreadStep n m s (record s {
        idle = append_idle t s.idle;
        thread = put s.thread t (move waiting (s.thread t));
      })
  doze :
      (t : ℕ)
      → t < n
      → (s.thread t).place ≡ waiting
      → (s.thread t).slot ≡ none
      → ThreadStep n m s (record s { thread = put s.thread t (move dozing (s.thread t)) })
  take :
      {k : Task} (t : ℕ)
      → t < n
      → (s.thread t).place ≡ waiting
      → (s.thread t).slot ≡ some k
      → ThreadStep n m s (record s { thread = put s.thread t (move running (s.thread t)) })
  run :
      {k : Task} (t : ℕ)
      → t < n
      → (s.thread t).place ≡ running
      → (s.thread t).slot ≡ some k
      → ThreadStep n m s
          (record s { thread = put s.thread t (move ran (s.thread t)); done = k ∷ s.done })
  unlock :
      {k : Task} (t : ℕ)
      → t < n
      → (s.thread t).place ≡ ran
      → (s.thread t).slot ≡ some k
      → ThreadStep n m s (record s {
        thread = put s.thread t (move unlocked (s.thread t));
        locked = put s.locked k.job false;
      })
  delete :
      {k : Task} (t : ℕ)
      → t < n
      → (s.thread t).place ≡ unlocked
      → (s.thread t).slot ≡ some k
      → ThreadStep n m s (record s {
        thread = put s.thread t (move resetting (s.thread t));
        deleted = if k.del then k.job ∷ s.deleted else s.deleted;
      })
  reset :
      (t : ℕ)
      → t < n
      → (s.thread t).place ≡ resetting
      → ThreadStep n m s (record s { thread = put s.thread t (clear_job (s.thread t)) })

-- A step of one of the `m` callers, who is at work on a call.
pub data CallerStep (n m : ℕ) (s : System) : System → Type 0 where
  get_none :
      {k : Task} (c : ℕ)
      → c < m
      → s.caller c ≡ getting k
      → s.idle ≡ []
      → CallerStep n m s (record s { caller = put s.caller c (get_asleep k) })
  get :
      {k : Task} {t : ℕ} {ts : List ℕ} (c : ℕ)
      → c < m
      → s.caller c ≡ getting k
      → s.idle ≡ t ∷ ts
      → CallerStep n m s (record s { caller = put s.caller c (got k t); idle = ts })
  lock :
      {k : Task} {t : ℕ} (c : ℕ)
      → c < m
      → s.caller c ≡ got k t
      → s.locked k.job ≡ false
      → CallerStep n m s
          (record s { caller = put s.caller c (assigning k t); locked = put s.locked k.job true })
  assign :
      {k : Task} {t : ℕ} (c : ℕ)
      → c < m
      → s.caller c ≡ assigning k t
      → CallerStep n m s (record s {
        caller = put s.caller c free;
        thread = put s.thread t (run_job k (s.thread t));
      })
  sync_lock :
      {j : ℕ} (c : ℕ)
      → c < m
      → s.caller c ≡ syncing j
      → s.locked j ≡ false
      → CallerStep n m s
          (record s { caller = put s.caller c (synced j); locked = put s.locked j true })
  sync_unlock :
      {j : ℕ} (c : ℕ)
      → c < m
      → s.caller c ≡ synced j
      → CallerStep n m s (record s { caller = put s.caller c free; locked = put s.locked j false })
  all_wait :
      (c : ℕ)
      → c < m
      → s.caller c ≡ all_testing
      → ltb (length s.idle) n ≡ true
      → CallerStep n m s (record s { caller = put s.caller c all_asleep })
  all_return :
      (c : ℕ)
      → c < m
      → s.caller c ≡ all_testing
      → ltb (length s.idle) n ≡ false
      → CallerStep n m s (record s { caller = put s.caller c free })

-- A call by a caller who is free; the system may also wake one who sleeps.
pub data Outside (m : ℕ) (s : System) : System → Type 0 where
  call_run :
      (c : ℕ) (k : Task)
      → c < m
      → s.caller c ≡ free
      → Outside m s (record s { caller = put s.caller c (getting k); asked = k ∷ s.asked })
  call_sync :
      (c j : ℕ)
      → c < m
      → s.caller c ≡ free
      → Outside m s (record s { caller = put s.caller c (syncing j) })
  call_sync_all :
      (c : ℕ)
      → c < m
      → s.caller c ≡ free
      → Outside m s (record s { caller = put s.caller c all_testing })
  wake :
      (c : ℕ)
      → c < m
      → asleep (s.caller c) ≡ true
      → Outside m s (record s { caller = put s.caller c (woken (s.caller c)) })

pub data Step (n m : ℕ) (s t : System) : Type 0 where
  by_thread : ThreadStep n m s t → Step n m s t
  by_caller : CallerStep n m s t → Step n m s t
  outside : Outside m s t → Step n m s t

pub data Reach (n m : ℕ) : System → Type 0 where
  started : Reach n m start
  later : {s t : System} → Reach n m s → Step n m s t → Reach n m t
