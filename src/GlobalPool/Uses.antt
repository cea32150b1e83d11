-- ===== src/GlobalPool/Uses.antt =====
-- Which histories of the functions on the global pool of src/common/TThreadPool.cpp are defined.
use kadpeer.Prelude.{
  ℕ, ◌≡◌, ◌<◌, ◌↔◌, refl, true, false, Option, none, some, List, [], ◌∷◌, arith, ◌==◌,
  if◌then◌else◌,
}
use mathlib.Core.Option.{none-ne-some}
use kadpeer.GlobalPool.{
  Globals, no_pool, GlobalCall, init, run, sync, sync_all, done, apply, apply_all, tp_init, tp_run,
  tp_sync, tp_sync_all, tp_done, use_pool, delete_pool, make_pool, ◌>>=◌,
}

-- No pool was made, one is in use, or one was deleted.
pub data Phase : Type 0 where
  unmade : Phase
  in_use : Phase
  deleted : Phase

-- A call that needs a pool.
abbrev pub use_phase : Phase → Option Phase
use_phase in_use = some in_use
use_phase p = none

-- The phase after a call, where the call is one that the phase allows.
abbrev pub next_phase : GlobalCall → Phase → Option Phase
next_phase init unmade = some in_use
next_phase init in_use = some in_use
next_phase init deleted = none
next_phase (run none) p = some p
next_phase (run (some job)) p = use_phase p
next_phase sync p = use_phase p
next_phase sync_all p = use_phase p
next_phase done unmade = some unmade
next_phase done in_use = some deleted
next_phase done deleted = none

abbrev pub phase_after : List GlobalCall → Phase → Option Phase
phase_after [] p = some p
phase_after (c ∷ cs) p = next_phase c p >>= phase_after cs

abbrev pub IsIn : Phase → Globals → Type 0
IsIn unmade g = g.thread_pool ≡ none
IsIn in_use g = (p : ℕ) × (g.thread_pool ≡ some p) × (g.exists p ≡ true) × (p < g.made)
IsIn deleted g = (p : ℕ) × (g.thread_pool ≡ some p) × (g.exists p ≡ false) × (p < g.made)

-- A call and its phase, both undefined or both not.
abbrev Agrees : Option Globals → Option Phase → Type 0
Agrees none none = Unit
Agrees none (some p) = ⊥
Agrees (some g) none = ⊥
Agrees (some g) (some p) = IsIn p g

delete_none : (g : Globals) → g.thread_pool ≡ none → delete_pool g ≡ some g
unfolding delete_pool
delete_none g h = ground arith

abbrev without : ℕ → Globals → Globals
without p g = record g { exists = λ q. if q == p then false else g.exists q }

delete_live :
    (g : Globals) (p : ℕ)
    → g.thread_pool ≡ some p
    → g.exists p ≡ true
    → delete_pool g ≡ some (without p g)
unfolding delete_pool
delete_live g p at here = ground arith

delete_twice :
    (g : Globals) (p : ℕ) → g.thread_pool ≡ some p → g.exists p ≡ false → delete_pool g ≡ none
unfolding delete_pool
delete_twice g p at gone = ground arith

use_none : (g : Globals) → g.thread_pool ≡ none → use_pool g ≡ none
unfolding use_pool
use_none g h = ground arith

use_live : (g : Globals) (p : ℕ) → g.thread_pool ≡ some p → g.exists p ≡ true → use_pool g ≡ some g
unfolding use_pool
use_live g p at here = ground arith

use_gone : (g : Globals) (p : ℕ) → g.thread_pool ≡ some p → g.exists p ≡ false → use_pool g ≡ none
unfolding use_pool
use_gone g p at gone = ground arith

make-IsIn : (g : Globals) → IsIn in_use (make_pool g)
make-IsIn g = (g.made, refl, ground arith, omega arith)

use-Agrees : (p : Phase) (g : Globals) → IsIn p g → Agrees (use_pool g) (use_phase p)
use-Agrees unmade g h = rw (use_none g h) tt
use-Agrees in_use g (p, at, here, low) = rw (use_live g p at here) (p, at, here, low)
use-Agrees deleted g (p, at, gone, low) = rw (use_gone g p at gone) tt

apply-Agrees :
    (c : GlobalCall) (p : Phase) (g : Globals) → IsIn p g → Agrees (apply c g) (next_phase c p)
unfolding apply tp_init tp_run tp_sync tp_sync_all tp_done
apply-Agrees init unmade g h = rw (delete_none g h) (make-IsIn g)
apply-Agrees init in_use g (p, at, here, low) =
    rw (delete_live g p at here) (make-IsIn (without p g))
apply-Agrees init deleted g (p, at, gone, low) = rw (delete_twice g p at gone) tt
apply-Agrees (run none) p g h = h
apply-Agrees (run (some job)) p g h = use-Agrees p g h
apply-Agrees done unmade g h = rw (delete_none g h) h
apply-Agrees done in_use g (p, at, here, low) =
    rw (delete_live g p at here) (p, at, ground arith, low)
apply-Agrees done deleted g (p, at, gone, low) = rw (delete_twice g p at gone) tt
apply-Agrees sync p g h = use-Agrees p g h
apply-Agrees sync_all p g h = use-Agrees p g h

bind-Agrees :
    (o : Option Globals) (q : Option Phase) (f : Globals → Option Globals)
    (h : Phase → Option Phase)
    → Agrees o q
    → ((p : Phase) (g : Globals) → IsIn p g → Agrees (f g) (h p))
    → Agrees (o >>= f) (q >>= h)
bind-Agrees none none f h a k = tt
bind-Agrees none (some p) f h a k = elim a [ ]
bind-Agrees (some g) none f h a k = elim a [ ]
bind-Agrees (some g) (some p) f h a k = k p g a

apply_all-Agrees :
    (cs : List GlobalCall) (p : Phase) (g : Globals)
    → IsIn p g
    → Agrees (apply_all cs g) (phase_after cs p)
unfolding apply_all
apply_all-Agrees [] p g h = h
apply_all-Agrees (c ∷ cs) p g h =
    bind-Agrees (apply c g) (next_phase c p) (apply_all cs) (phase_after cs) (apply-Agrees c p g h)
      (apply_all-Agrees cs)

Agrees-iff :
    (o : Option Globals) (q : Option Phase)
    → Agrees o q
    → ((g : Globals) × (o ≡ some g)) ↔ ((p : Phase) × (q ≡ some p))
Agrees-iff none none a =
    ((λ (g, e). absurd (none-ne-some _ e)), λ (p, e). absurd (none-ne-some _ e))
Agrees-iff none (some p) a = elim a [ ]
Agrees-iff (some g) none a = elim a [ ]
Agrees-iff (some g) (some p) a = ((λ _. (p, refl)), λ _. (g, refl))

-- A history of calls of the functions on the global pool, from the start of the program, is defined
-- exactly where tp_run with a job, tp_sync and tp_sync_all come while a pool is in use, and after
-- the tp_done of a pool there is nothing but tp_run with no job.
pub apply_all_iff :
    (cs : List GlobalCall)
    → ((g : Globals) × (apply_all cs no_pool ≡ some g))
      ↔ ((p : Phase) × (phase_after cs unmade ≡ some p))
apply_all_iff cs =
    Agrees-iff (apply_all cs no_pool) (phase_after cs unmade)
      (apply_all-Agrees cs unmade no_pool refl)
