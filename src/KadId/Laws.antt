-- ===== src/KadId/Laws.antt =====
-- The order of `CloserToTarget` and the bounds of `SplitRange` (src/kademlia/kadid.cpp).
use kadpeer.Prelude.{
  ℕ, ◌+◌, ◌*◌, ◌/◌, ◌%◌, ◌≤◌, ◌<◌, ◌≡◌, ◌≢◌, ◌⊎◌, true, false, arith, leb, inl, inr, sym, ap, ◌∙◌,
}
use kadpeer.KadId.{KadId, BigInt, distance, closer_to_target, split_range, middle, le_id, ge_id}

-- Different identifiers have different distances.
pub distance-injective :
    (bi : BigInt) (a b target : KadId) → distance bi a target ≡ distance bi b target → a ≡ b
distance-injective bi a b target h =
    sym (bi.xor_twice a target) ∙ (ap (λ (d : ℕ). bi.xor d target) h ∙ bi.xor_twice b target)

-- Seen from a target, `CloserToTarget` decides between any two different identifiers.
pub closer_to_target-total :
    (bi : BigInt) (a b target : KadId)
    → a ≢ b
    → (closer_to_target bi a b target ≡ true) ⊎ (closer_to_target bi b a target ≡ true)
unfolding closer_to_target
closer_to_target-total bi a b target n = ground (arith, distance-injective bi a b target, n)

-- If one identifier is closer to a target than a second, and a third is not closer than the second,
-- then the first is closer than the third, and the third is not closer than the first.
pub closer_to_target_trans :
    (bi : BigInt) (a b c target : KadId)
    → closer_to_target bi a b target ≡ true
    → closer_to_target bi c b target ≡ false
    → (closer_to_target bi a c target ≡ true) × (closer_to_target bi c a target ≡ false)
unfolding closer_to_target
closer_to_target_trans bi a b c target h k = (ground arith, ground arith)

half_sum : (a b : ℕ) → a / 2 + b / 2 + a % 2 * (b % 2) ≡ (a + b) / 2
half_sum a b = elim (parity a) [ inl e ↦ rw e (omega (arith, e)) | inr e ↦ rw e (omega (arith, e)) ]
  where
    parity : (n : ℕ) → (n % 2 ≡ 0) ⊎ (n % 2 ≡ 1)
    parity n = omega arith

-- On a range of at least two identifiers the bounds that `SplitRange` writes lie one apart within
-- the range, and the lower one is the middle of the range, or the number before it where both ends
-- are odd.
pub split_range_bounds :
    (min max : KadId)
    → min < max
    → ((split_range min max).0 ≡ (split_range min max).1 + 1)
      × (min ≤ (split_range min max).1)
      × ((split_range min max).0 ≤ max)
      × ((split_range min max).1 + (min % 2) * (max % 2) ≡ middle min max)
unfolding split_range middle
split_range_bounds min max h = (ground arith, ground arith, ground arith, half_sum min max)

-- The comparisons that are written as negations are those of the numbers.
le_id-leb : (a b : KadId) → (le_id a b ≡ leb a b) × (ge_id a b ≡ leb b a)
unfolding le_id ge_id
le_id-leb a b = ground arith
