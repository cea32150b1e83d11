-- ===== src/TThread/Started.antt =====
-- When the object of src/common/TThread.cpp counts as running, and what reaches the thread.
use kadpeer.Prelude.{ℕ, ◌≡◌, ◌<◌, ◌/◌, ◌&&◌, ◌||◌, not, Bool, false, arith, if◌then◌else◌}
use kadpeer.Prelude.Int.{pos, ◌==ℤ◌}
use kadpeer.TThread.{
  Pthreads, TThread, create, join, cancel, detach, destroy, interval, try_step, launch,
}

module _ {W : Type 0} (sys : Pthreads W) where
  -- After create, a thread that was not running is running exactly where each call that create makes
  -- for its two arguments succeeds.
  pub create_running :
      (detached sscope : Bool) (t : TThread) (w : W)
      → t.is_running ≡ false
      → let (init, w1) = sys.attr_init w in
        let (detach_status, w2) = sys.attr_setdetachstate w1 in
        let w2' = if detached then w2 else w1 in
        let (scope_status, w3) = sys.attr_setscope w2' in
        let w3' = if sscope then w3 else w2' in
        let (created, id, w4) = sys.create_call w3' in
        (create sys detached sscope t w).0.is_running ≡ (
          init ==ℤ pos 0
          && ((not detached || detach_status ==ℤ pos 0)
              && ((not sscope || scope_status ==ℤ pos 0) && created ==ℤ pos 0)))
  unfolding create try_step launch
  create_running detached sscope t w h = ground arith

  -- After a join the object is not running, and no later detach, cancel or destructor reaches a thread.
  pub join_stops :
      (t : TThread) (w w' : W)
      → let (t', joined) = join sys t w in
        (detach sys t' w' ≡ w') × (cancel sys t' w' ≡ w') × (destroy sys t' w' ≡ w')
  unfolding join detach cancel destroy
  join_stops t w w' = (ground arith, ground arith, ground arith)

-- sleep of less than a second waits for its thousandth part.
pub interval_short : (n : ℕ) → n < 1000000000 → interval (pos n) ≡ (0, n / 1000)
unfolding interval
interval_short n h = ground arith
