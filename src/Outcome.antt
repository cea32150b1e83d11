-- ===== src/Outcome.antt =====
-- The outcomes of a call that may loop or run into undefined behaviour of the source.
use kadpeer.Prelude.{Option, none, some}

pub data Outcome {ℓ} (A : Type ℓ) : Type ℓ where
  done : A → Outcome A
  -- An access outside an array, past the end of a list or map, or to a deleted object.
  undefined : Outcome A
  -- The fuel of a recursion is used up.
  out_of_fuel : Outcome A

infixl 5 ◌>>=◌
abbrev pub ◌>>=◌ {ℓ κ} : {A : Type ℓ} {B : Type κ} → Outcome A → (A → Outcome B) → Outcome B
done a >>= f = f a
undefined >>= f = undefined
out_of_fuel >>= f = out_of_fuel

-- A value that is accessed without a check.
abbrev pub access {ℓ} : {A : Type ℓ} → Option A → Outcome A
access none = undefined
access (some a) = done a
