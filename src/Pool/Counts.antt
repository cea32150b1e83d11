-- ===== src/Pool/Counts.antt =====
-- What the invariant of the pool counts: where each thread is, which jobs are under way, and who keeps
-- the mutex of a job.
use kadpeer.Prelude.{
  ℕ, ◌+◌, ◌≡◌, ◌≤◌, refl, Bool, true, false, Option, none, some, List, [], ◌∷◌, ◌++◌, ◌==◌,
  if◌then◌else◌, arith,
}
use kadpeer.Threads.{sum_below, sum_below-put}
use kadpeer.Pool.{
  Task, Place, waiting, dozing, running, ran, Thread, Caller, getting, get_asleep, got, assigning,
  synced, has, woken, Signal, nobody, wakes,
}

abbrev pub one_if : Bool → ℕ
one_if b = if b then 1 else 0

abbrev pub occurs : ℕ → List ℕ → ℕ
occurs t [] = 0
occurs t (x ∷ xs) = one_if (x == t) + occurs t xs

pub occurs-not_has : (t : ℕ) (xs : List ℕ) → has t xs ≡ false → occurs t xs ≡ 0
occurs-not_has t [] h = refl
occurs-not_has t (x ∷ xs) h = ground (arith, occurs-not_has t xs)

pub occurs-has : (t : ℕ) (xs : List ℕ) → has t xs ≡ true → 1 ≤ occurs t xs
occurs-has t [] h = absurd (ground arith)
occurs-has t (x ∷ xs) h = ground (arith, occurs-has t xs)

pub occurs-append :
    (t : ℕ) (xs : List ℕ) (u : ℕ) → occurs t (xs ++ u ∷ []) ≡ occurs t xs + one_if (u == t)
occurs-append t [] u = omega arith
occurs-append t (x ∷ xs) u = ground (arith, occurs-append t xs u)

-- A caller has taken the thread `t` from the list, and not given it the job yet.
abbrev pub claims : ℕ → Caller → ℕ
claims t (got k u) = one_if (u == t)
claims t (assigning k u) = one_if (u == t)
claims t _ = 0

-- A thread is on its way to the list, or has a job.
abbrev pub busy_at : Place → Option Task → ℕ
busy_at waiting none = 0
busy_at dozing none = 0
busy_at _ _ = 1

abbrev pub busy : Thread → ℕ
busy w = busy_at w.place w.slot

-- A job that a caller of `run` has not given to a thread.
abbrev pub pending : (Task → ℕ) → Caller → ℕ
pending v (getting k) = v k
pending v (get_asleep k) = v k
pending v (got k t) = v k
pending v (assigning k t) = v k
pending v _ = 0

-- A job that a thread has not run.
abbrev pub unfinished_at : (Task → ℕ) → Place → Option Task → ℕ
unfinished_at v waiting (some k) = v k
unfinished_at v running (some k) = v k
unfinished_at v _ _ = 0

abbrev pub unfinished : (Task → ℕ) → Thread → ℕ
unfinished v w = unfinished_at v w.place w.slot

abbrev pub weigh : (Task → ℕ) → List Task → ℕ
weigh v [] = 0
weigh v (k ∷ ks) = v k + weigh v ks

-- Who keeps the mutex of the job `j`.
abbrev pub caller_keeps : ℕ → Caller → ℕ
caller_keeps j (assigning k t) = one_if (k.job == j)
caller_keeps j (synced i) = one_if (i == j)
caller_keeps j _ = 0

abbrev pub keeps_at : ℕ → Place → Option Task → ℕ
keeps_at j waiting (some k) = one_if (k.job == j)
keeps_at j running (some k) = one_if (k.job == j)
keeps_at j ran (some k) = one_if (k.job == j)
keeps_at j _ _ = 0

abbrev pub thread_keeps : ℕ → Thread → ℕ
thread_keeps j w = keeps_at j w.place w.slot

-- What waking up leaves is what no such count looks at.
abbrev Blind : (Caller → ℕ) → Type 0
Blind w = (c : Caller) → w (woken c) ≡ w c

pub claims-woken : (t : ℕ) (c : Caller) → claims t (woken c) ≡ claims t c
claims-woken t c = ground arith

pub pending-woken : (v : Task → ℕ) (c : Caller) → pending v (woken c) ≡ pending v c
pending-woken v c = ground arith

pub keeps-woken : (j : ℕ) (c : Caller) → caller_keeps j (woken c) ≡ caller_keeps j c
keeps-woken j c = ground arith

pub sum_below-woken :
    (w : Caller → ℕ)
    → Blind w
    → {m : ℕ} {f g : ℕ → Caller} → Signal m f g
    → sum_below w m g ≡ sum_below w m f
sum_below-woken w blind (nobody h) = refl
sum_below-woken w blind {m} {f} (wakes c lt h) =
    omega (arith, sum_below-put w m f c (woken (f c)) lt, blind (f c))
