-- ===== src/Threads.antt =====
-- Numbered threads: what one of them does to the family of their states, and sums over the first of them.
use kadpeer.Prelude.{ℕ, zero, suc, ◌+◌, ◌≤◌, ◌<◌, ◌≡◌, refl, ◌==◌, if◌then◌else◌, arith}
use native.Mathlib.Decide.{dec_lt}

module _ {ℓ} {A : Type ℓ} where
  -- The family with the state `a` for the thread `i`.
  abbrev pub put : (ℕ → A) → ℕ → A → ℕ → A
  put f i a j = if j == i then a else f j

  module _ (w : A → ℕ) where
    unfoldable pub sum_below : ℕ → (ℕ → A) → ℕ
    sum_below zero f = 0
    sum_below (suc n) f = w (f n) + sum_below n f

    sum_below-put_above :
        (n : ℕ) (f : ℕ → A) (i : ℕ) (a : A) → n ≤ i → sum_below n (put f i a) ≡ sum_below n f
    unfolding sum_below
    sum_below-put_above zero f i a h = refl
    sum_below-put_above (suc n) f i a h = ground (arith, sum_below-put_above n f i a)

    -- A change at one thread changes the sum by what it changes there.
    pub sum_below-put :
        (n : ℕ) (f : ℕ → A) (i : ℕ) (a : A)
        → i < n
        → sum_below n (put f i a) + w (f i) ≡ sum_below n f + w a
    unfolding sum_below
    sum_below-put zero f i a h = absurd (omega arith)
    sum_below-put (suc n) f i a h = elim (dec_lt i n) [
      | yes below ↦ ground (arith, sum_below-put n f i a below)
      | no last ↦ ground (arith, sum_below-put_above n f i a)
    ]

    pub le-sum_below : (n : ℕ) (f : ℕ → A) (i : ℕ) → i < n → w (f i) ≤ sum_below n f
    unfolding sum_below
    le-sum_below zero f i h = absurd (omega arith)
    le-sum_below (suc n) f i h = elim (dec_lt i n) [
      | yes below ↦ ground (arith, le-sum_below n f i below)
      | no last ↦ ground arith
    ]

    pub sum_below-eq_zero :
        (n : ℕ) (f : ℕ → A) → ((i : ℕ) → i < n → w (f i) ≡ 0) → sum_below n f ≡ 0
    unfolding sum_below
    sum_below-eq_zero zero f h = refl
    sum_below-eq_zero (suc n) f h =
        omega (arith, h n, sum_below-eq_zero n f (λ i lt. h i (omega arith)))

  pub sum_below-congr :
      (v w : A → ℕ) (n : ℕ) (f : ℕ → A)
      → ((i : ℕ) → i < n → v (f i) ≡ w (f i))
      → sum_below v n f ≡ sum_below w n f
  unfolding sum_below
  sum_below-congr v w zero f h = refl
  sum_below-congr v w (suc n) f h =
      omega (arith, h n, sum_below-congr v w n f (λ i lt. h i (omega arith)))

  pub positive :
      (w : A → ℕ) (n : ℕ) (f : ℕ → A) → 1 ≤ sum_below w n f → (i : ℕ) × (i < n) × (1 ≤ w (f i))
  unfolding sum_below
  positive w zero f h = absurd (omega arith)
  positive w (suc n) f h = elim (dec_lt 0 (w (f n))) [
    | yes here ↦ (n, omega arith, omega arith)
    | no before ↦ let (i, low, e) = positive w n f (omega arith) in (i, omega arith, e)
  ]

  pub sum_below-le : (w : A → ℕ) (n : ℕ) (f : ℕ → A) → ((a : A) → w a ≤ 1) → sum_below w n f ≤ n
  unfolding sum_below
  sum_below-le w zero f small = omega arith
  sum_below-le w (suc n) f small = omega (arith, small (f n), sum_below-le w n f small)
