-- ===== src/Tests/Endings.antt =====
-- The destructor of a pool with two threads, and the theorems on it.
use kadpeer.Prelude.{◌≡◌, refl, true, arith}
use kadpeer.Pool.Ending.{
  all_idle, come_idle, fall_asleep, sync_ends, Ending, quit, leave, EndReach, begun, onward,
  by_owner, by_worker,
}
use kadpeer.Pool.Ending.Ends.{exists-in_run, late-EndReach}
use kadpeer.Pool.Ending.Returns.{Finishes, EndReach-Finishes}

-- Both threads are in the list, and the first was told to quit and has left its loops.
abbrev one_left : (s : Ending) × EndReach 2 s
unfolding all_idle
one_left =
    let first : EndReach 2 _ = onward begun (by_worker (come_idle 0 (omega arith) refl)) in
    let second : EndReach 2 _ = onward first (by_worker (come_idle 1 (omega arith) refl)) in
    let sleeps : EndReach 2 _ = onward second (by_worker (fall_asleep 0 (omega arith) refl refl)) in
    let synced : EndReach 2 _ = onward sleeps (by_owner (sync_ends refl refl)) in
    let told_ : EndReach 2 _ = onward synced (by_owner (quit 0 refl (omega arith))) in
    (_, onward told_ (by_worker (leave 0 (omega arith) refl refl)))

exists-in_run_example : (one_left.0.worker 0).exists ≡ true
unfolding one_left
exists-in_run_example = exists-in_run 0 one_left.1 (omega arith) refl

EndReach-Finishes_example : Finishes 2 one_left.0
EndReach-Finishes_example = EndReach-Finishes one_left.1

late-EndReach_example : (s : Ending) × EndReach 2 s × (s.late ≡ true)
late-EndReach_example = late-EndReach 2 (omega arith)
