-- ===== src/Pool/Listed.antt =====
-- How often the numbers below a bound occur in the list of idle threads.
use kadpeer.Prelude.{
  ℕ, zero, suc, ◌+◌, ◌≡◌, ◌≤◌, ◌<◌, refl, true, false, List, [], ◌∷◌, arith, ltb, length,
}
use native.Mathlib.Decide.{dec_lt}
use kadpeer.Pool.Counts.{one_if, occurs}

unfoldable total : (ℕ → ℕ) → ℕ → ℕ
total w zero = 0
total w (suc n) = w n + total w n

total-zero : (n : ℕ) → total (λ t. 0) n ≡ 0
unfolding total
total-zero zero = refl
total-zero (suc n) = omega (arith, total-zero n)

total-cons :
    (n x : ℕ) (ts : List ℕ)
    → total (λ t. occurs t (x ∷ ts)) n ≡ total (λ t. occurs t ts) n + one_if (ltb x n)
unfolding total
total-cons zero x ts = ground arith
total-cons (suc n) x ts = ground (arith, total-cons n x ts)

-- The numbers of a list are counted below a bound that none of them reaches.
total-occurs :
    (n : ℕ) (ts : List ℕ)
    → ((t : ℕ) → n ≤ t → occurs t ts ≡ 0)
    → total (λ t. occurs t ts) n ≡ length ts
total-occurs n [] off = total-zero n
total-occurs n (x ∷ ts) off =
    ground
      (arith, total-cons n x ts, total-occurs n ts (λ t high. ground (arith, off t high)), off x)

total-le : (w : ℕ → ℕ) (n : ℕ) → ((t : ℕ) → t < n → w t ≤ 1) → total w n ≤ n
unfolding total
total-le w zero small = omega arith
total-le w (suc n) small = omega (arith, small n, total-le w n (λ t low. small t (omega arith)))

all_one :
    (w : ℕ → ℕ) (n : ℕ) → ((t : ℕ) → t < n → w t ≤ 1) → n ≤ total w n → (t : ℕ) → t < n → w t ≡ 1
unfolding total
all_one w zero small full t low = absurd (omega arith)
all_one w (suc n) small full t low =
    let bound = total-le w n (λ u l. small u (omega arith)) in
    elim (dec_lt t n) [
      | yes below ↦
          all_one w n (λ u l. small u (omega arith)) (omega (arith, small n, bound)) t below
      | no last ↦ ground (arith, small n, bound)
    ]

missing : (w : ℕ → ℕ) (n : ℕ) → total w n < n → (t : ℕ) × (t < n) × (w t ≡ 0)
unfolding total
missing w zero short = absurd (omega arith)
missing w (suc n) short = elim (dec_lt (total w n) n) [
  | yes below ↦ let (t, low, e) = missing w n below in (t, omega arith, e)
  | no full ↦ (n, omega arith, omega arith)
]

module _ (n : ℕ) (ts : List ℕ) (off : (t : ℕ) → n ≤ t → occurs t ts ≡ 0) where
  -- A list of `n` numbers below `n`, none of them twice, has each of them.
  pub occurs-full :
      ((t : ℕ) → t < n → occurs t ts ≤ 1)
      → ltb (length ts) n ≡ false
      → (t : ℕ) → t < n
      → occurs t ts ≡ 1
  occurs-full small full =
      all_one (λ t. occurs t ts) n small (ground (arith, total-occurs n ts off))

  -- A shorter one lacks a number.
  pub occurs-short : ltb (length ts) n ≡ true → (t : ℕ) × (t < n) × (occurs t ts ≡ 0)
  occurs-short short = missing (λ t. occurs t ts) n (ground (arith, total-occurs n ts off))
