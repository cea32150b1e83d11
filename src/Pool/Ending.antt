-- ===== src/Pool/Ending.antt =====
-- The destructor of the pool (`~TThreadPool`, `sync_all` and `TPoolThr::quit` of
-- src/common/TThreadPool.cpp, with `_run_thread` of src/common/TThread.cpp), where nobody else uses the
-- pool. Each thread has a job that ends, or none, when it begins. What a thread does under `_work_cond`
-- or `_idle_cond` is one step, and no thread wakes up without a signal. The cancellation that `~TThread`
-- asks for stops no thread: one that has left `run` comes to no cancellation point any more.
pub mod Ends
pub mod Returns
use kadpeer.Prelude.{ℕ, zero, suc, ◌&&◌, ◌<◌, ◌≤◌, ◌≡◌, Bool, true, false, not, ◌||◌, ltb}
use kadpeer.Threads.{put}

-- Where a thread stands.
pub data Stage : Type 0 where
  busy : Stage  -- before `append_idle`, with a job or none
  inner : Stage  -- in the inner loop of `run`, before its test
  asleep : Stage  -- in `_work_cond.wait`
  leaving : Stage  -- after both loops, before `_del_mutex.unlock`
  released : Stage  -- after `run`, before `reset_running`
  ended : Stage

-- `end` is `_end`, and `exists` says that the object was not deleted.
pub record Worker : Type 0 where
  pub stage : Stage
  pub end : Bool
  pub exists : Bool

-- Where the destructor stands; its loops have the index of a thread.
pub data Owner : Type 0 where
  syncing : Owner  -- in `sync_all`, before its test
  sync_asleep : Owner  -- in `_idle_cond.wait` of `sync_all`
  quitting : ℕ → Owner  -- the first loop, before its test
  joining : ℕ → Owner  -- the second loop, before its test
  deleting : ℕ → Owner  -- before `delete _threads[i]`, with the mutex `_del_mutex` of the thread
  finished : Owner

-- `late` says that a thread wrote to its deleted object.
pub record Ending : Type 0 where
  pub owner : Owner
  pub worker : ℕ → Worker
  pub late : Bool

abbrev pub begin : Ending
begin = record {
  owner = syncing;
  worker = λ _. record { stage = busy; end = false; exists = true };
  late = false;
}

-- Whether the thread is in the list of idle threads, which none leaves here.
abbrev pub is_idle : Stage → Bool
is_idle busy = false
is_idle g = true

-- Whether the first `n` threads are in the list.
unfoldable pub all_idle : ℕ → (ℕ → Worker) → Bool
all_idle zero w = true
all_idle (suc n) w = is_idle (w n).stage && all_idle n w

-- The signals of `append_idle` and of `quit`.
abbrev pub sync_woken : Owner → Owner
sync_woken sync_asleep = syncing
sync_woken o = o

abbrev pub work_woken : Stage → Stage
work_woken asleep = inner
work_woken g = g

-- `quit` of the thread.
abbrev pub told_to_quit : Worker → Worker
told_to_quit w = record w { end = true; stage = work_woken w.stage }

-- Whether `_del_mutex` is free: `run` holds it from its first line to its last.
abbrev pub has_left : Stage → Bool
has_left busy = false
has_left inner = false
has_left asleep = false
has_left leaving = false
has_left released = true
has_left ended = true

abbrev pub move_to : Stage → Worker → Worker
move_to stage w = record w { stage = stage }

-- The steps of the destructor of a pool with `n` threads.
pub data OwnerStep (n : ℕ) (s : Ending) : Ending → Type 0 where
  sync_waits :
      s.owner ≡ syncing
      → all_idle n s.worker ≡ false
      → OwnerStep n s (record s { owner = sync_asleep })
  sync_ends :
      s.owner ≡ syncing
      → all_idle n s.worker ≡ true
      → OwnerStep n s (record s { owner = quitting 0 })
  quit :
      (i : ℕ)
      → s.owner ≡ quitting i
      → i < n
      → OwnerStep n s (record s {
        owner = quitting (suc i);
        worker = put s.worker i (told_to_quit (s.worker i));
      })
  all_quit : (i : ℕ) → s.owner ≡ quitting i → n ≤ i → OwnerStep n s (record s { owner = joining 0 })
  lock_del_mutex :
      (i : ℕ)
      → s.owner ≡ joining i
      → i < n
      → has_left (s.worker i).stage ≡ true
      → OwnerStep n s (record s { owner = deleting i })
  delete_thread :
      (i : ℕ)
      → s.owner ≡ deleting i
      → OwnerStep n s (record s {
        owner = joining (suc i);
        worker = put s.worker i (record (s.worker i) { exists = false });
      })
  all_joined : (i : ℕ) → s.owner ≡ joining i → n ≤ i → OwnerStep n s (record s { owner = finished })

-- The steps of the threads.
pub data WorkerStep (n : ℕ) (s : Ending) : Ending → Type 0 where
  come_idle :
      (t : ℕ)
      → t < n
      → (s.worker t).stage ≡ busy
      → WorkerStep n s (record s {
        owner = sync_woken s.owner;
        worker = put s.worker t (move_to inner (s.worker t));
      })
  fall_asleep :
      (t : ℕ)
      → t < n
      → (s.worker t).stage ≡ inner
      → (s.worker t).end ≡ false
      → WorkerStep n s (record s { worker = put s.worker t (move_to asleep (s.worker t)) })
  leave :
      (t : ℕ)
      → t < n
      → (s.worker t).stage ≡ inner
      → (s.worker t).end ≡ true
      → WorkerStep n s (record s { worker = put s.worker t (move_to leaving (s.worker t)) })
  release :
      (t : ℕ)
      → t < n
      → (s.worker t).stage ≡ leaving
      → WorkerStep n s (record s { worker = put s.worker t (move_to released (s.worker t)) })
  reset_running :
      (t : ℕ)
      → t < n
      → (s.worker t).stage ≡ released
      → WorkerStep n s (record s {
        worker = put s.worker t (move_to ended (s.worker t));
        late = s.late || not (s.worker t).exists;
      })

pub data EndStep (n : ℕ) (s t : Ending) : Type 0 where
  by_owner : OwnerStep n s t → EndStep n s t
  by_worker : WorkerStep n s t → EndStep n s t

pub data EndReach (n : ℕ) : Ending → Type 0 where
  begun : EndReach n begin
  onward : {s t : Ending} → EndReach n s → EndStep n s t → EndReach n t
