-- ===== src/TThread.antt =====
-- include/common/TThread.hh and src/common/TThread.cpp: the object of a thread. The calls of pthreads
-- are parameters, over a state `W` of the system, each with the status that it returns; a number of
-- seconds is exact, in nanoseconds. Messages are left out, and so are the branches for SUNOS and HPUX.
pub mod Started
use kadpeer.Prelude.{ℕ, ◌+◌, ◌/◌, ◌%◌, Bool, true, false, not, ◌&&◌, ◌||◌, if◌then◌else◌, ◌==◌}
use kadpeer.Prelude.Int.{ℤ, pos, negsuc, ◌==ℤ◌, ltb_ℤ}

-- The thread identifiers and attributes of the system are numbers. `attr` is where the object's
-- attributes lie.
pub record Pthreads (W : Type 0) : Type 0 where
  pub attr_init : W → ℤ × W
  pub attr_setdetachstate : W → ℤ × W
  pub attr_setscope : W → ℤ × W
  pub create_call : W → ℤ × ℕ × W
  pub detach_call : ℕ → W → ℤ × W
  pub join_call : ℕ → W → ℤ × W
  pub cancel_call : ℕ → W → ℤ × W
  pub self : W → ℕ
  pub exit_call : W → W
  pub nanosleep_call : ℕ → ℕ → W → W

pub record TThread : Type 0 where
  pub thread_id : ℕ
  pub is_running : Bool
  pub thread_no : ℤ

abbrev pub new_thread : ℕ → ℤ → TThread
new_thread unset no_ = record { thread_id = unset; is_running = false; thread_no = no_ }

abbrev pub set_thread_no : ℤ → TThread → TThread
set_thread_no n t = record t { thread_no = n }

abbrev pub on_proc : ℤ → TThread → Bool
on_proc p t = p ==ℤ negsuc 0 || (t.thread_no ==ℤ negsuc 0 || p ==ℤ t.thread_no)

abbrev pub reset_running : TThread → TThread
reset_running t = record t { is_running = false }

-- The seconds and the nanoseconds that `sleep` waits, for a number of nanoseconds.
unfoldable pub interval : ℤ → ℕ × ℕ
interval (pos n) = (n / 1000000000, n % 1000000000 / 1000)
interval (negsuc n) = (0, 0)

module _ {W : Type 0} (sys : Pthreads W) where
  -- A step before `pthread_create`, which returns where it fails.
  unfoldable pub try_step : Bool → (W → ℤ × W) → (W → TThread × W) → TThread → W → TThread × W
  try_step wanted call rest t w =
      let (status, w') = call w in
      if not wanted then rest w else if status ==ℤ pos 0 then rest w' else (t, w')

  unfoldable pub launch : TThread → W → TThread × W
  launch t w =
      let (status, id, w') = sys.create_call w in
      (record t { thread_id = id; is_running = status ==ℤ pos 0 || t.is_running }, w')

  unfoldable pub create : Bool → Bool → TThread → W → TThread × W
  unfolding try_step launch
  create detached sscope t w =
      if t.is_running
      then (t, w)
      else try_step true sys.attr_init
          (try_step detached sys.attr_setdetachstate
            (try_step sscope sys.attr_setscope (launch t) t) t)
          t w

  unfoldable pub detach : TThread → W → W
  detach t w = if t.is_running then (sys.detach_call t.thread_id w).1 else w

  -- The object counts as stopped, also where the call failed.
  unfoldable pub join : TThread → W → TThread × W
  join t w =
      if t.is_running
      then (record t { is_running = false }, (sys.join_call t.thread_id w).1)
      else (t, w)

  unfoldable pub cancel : TThread → W → W
  cancel t w = if t.is_running then (sys.cancel_call t.thread_id w).1 else w

  -- `~TThread`
  unfoldable pub destroy : TThread → W → W
  unfolding cancel
  destroy t w = if t.is_running then cancel t w else w

  -- The call ends the thread, so that the flag stays.
  unfoldable pub exit : TThread → W → W
  exit t w = if t.is_running && sys.self w == t.thread_id then sys.exit_call w else w

  unfoldable pub sleep : ℤ → TThread → W → W
  unfolding interval
  sleep sec t w =
      let (tv_sec, tv_nsec) = interval sec in
      if t.is_running then sys.nanosleep_call tv_sec tv_nsec w else w
