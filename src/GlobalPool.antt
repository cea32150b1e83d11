-- ===== src/GlobalPool.antt =====
-- The functions on the global pool of src/common/TThreadPool.cpp, `tp_init` to `tp_done`: which pool the
-- pointer `thread_pool` names, and which pools exist. A call that deletes a pool a second time, or
-- that uses no pool or a deleted one, is undefined. What a pool does is in Pool.
pub mod Uses
use kadpeer.Prelude.{
  ℕ, ◌+◌, Bool, true, false, Option, none, some, List, [], ◌∷◌, ◌==◌, if◌then◌else◌,
}

-- Pools are numbered in the order in which they are made.
pub record Globals : Type 0 where
  pub thread_pool : Option ℕ
  pub exists : ℕ → Bool
  pub made : ℕ

abbrev pub no_pool : Globals
no_pool = record { thread_pool = none; exists = λ p. false; made = 0 }

infixl 5 ◌>>=◌
abbrev pub ◌>>=◌ {ℓ κ} : {A : Type ℓ} {B : Type κ} → Option A → (A → Option B) → Option B
none >>= f = none
some a >>= f = f a

-- `delete thread_pool`; a null pointer may be deleted.
unfoldable pub delete_pool : Globals → Option Globals
delete_pool g = elim (g.thread_pool) [
  | none ↦ some g
  | some p ↦
      if g.exists p
      then some (record g { exists = λ q. if q == p then false else g.exists q })
      else none
]

-- A call of a method of the pool.
unfoldable pub use_pool : Globals → Option Globals
use_pool g = elim (g.thread_pool) [ none ↦ none | some p ↦ if g.exists p then some g else none ]

-- `thread_pool = new TThreadPool( p )`
abbrev pub make_pool : Globals → Globals
make_pool g = record {
  thread_pool = some g.made;
  exists = λ q. if q == g.made then true else g.exists q;
  made = g.made + 1;
}

unfoldable pub tp_init : Globals → Option Globals
unfolding delete_pool
tp_init g = delete_pool g >>= λ g'. some (make_pool g')

-- `tp_run`, where `job` is `NULL` or not.
unfoldable pub tp_run : Option ℕ → Globals → Option Globals
unfolding use_pool
tp_run none g = some g
tp_run (some job) g = use_pool g

unfoldable pub tp_sync : Globals → Option Globals
unfolding use_pool
tp_sync = use_pool

unfoldable pub tp_sync_all : Globals → Option Globals
unfolding use_pool
tp_sync_all = use_pool

-- The pointer stays.
unfoldable pub tp_done : Globals → Option Globals
unfolding delete_pool
tp_done = delete_pool

pub data GlobalCall : Type 0 where
  init : GlobalCall
  run : Option ℕ → GlobalCall
  sync : GlobalCall
  sync_all : GlobalCall
  done : GlobalCall

unfoldable pub apply : GlobalCall → Globals → Option Globals
unfolding tp_init tp_run tp_sync tp_sync_all tp_done
apply init = tp_init
apply (run job) = tp_run job
apply sync = tp_sync
apply sync_all = tp_sync_all
apply done = tp_done

unfoldable pub apply_all : List GlobalCall → Globals → Option Globals
unfolding apply
apply_all [] g = some g
apply_all (c ∷ cs) g = apply c g >>= apply_all cs
