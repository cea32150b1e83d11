-- ===== src/RoutingTable/Crowd.antt =====
-- Why a full bucket of a routing table (src/kademlia/kadroutingtable.cpp) can be split: distinct
-- identifiers in a range are at most as many as the range has numbers.
use kadpeer.Prelude.{
  ℕ, zero, suc, ◌+◌, ◌-◌, ◌≤◌, ◌<◌, ◌≡◌, refl, false, List, [], ◌∷◌, some, arith, length, ◌^◌, ◌⊎◌,
  inl, inr, get_elem?,
}
use native.Mathlib.Decide.{dec_le}
use native.Mathlib.Nat.{pow-suc}
use kadpeer.KadId.{KadId}
use kadpeer.Contact.{Contact}
use kadpeer.KBucket.{KBucket}
use kadpeer.KBucket.Erase.{
  has_id, IsDistinct, without, has_id-without, without-IsDistinct, length-without,
}
use kadpeer.RoutingTable.Buckets.{replace_by_two}
use kadpeer.RoutingTable.Lookup.{InRange, IsTile, Tiles, Owner, low_at}
use kadpeer.RoutingTable.Split.{IsSplit}

-- All identifiers are among the `n` from `lo` on.
abbrev Inside : ℕ → ℕ → List Contact → Type 0
Inside lo n [] = Unit {0}
Inside lo n (c ∷ cs) = ((lo ≤ c.node_id) × (c.node_id < lo + n)) × Inside lo n cs

Inside-without :
    (lo n : ℕ) (id : KadId) (cs : List Contact) → Inside lo n cs → Inside lo n (without id cs)
unfolding without
Inside-without lo n id [] h = tt
Inside-without lo n id (c ∷ cs) h = ground (arith, Inside-without lo n id cs h.1)

Inside-shrink :
    (lo n : ℕ) (cs : List Contact)
    → Inside lo (suc n) cs
    → has_id (lo + n) cs ≡ false
    → Inside lo n cs
unfolding has_id
Inside-shrink lo n [] h e = tt
Inside-shrink lo n (c ∷ cs) h e = ground (arith, Inside-shrink lo n cs h.1)

length-Inside : (n lo : ℕ) (cs : List Contact) → IsDistinct cs → Inside lo n cs → length cs ≤ n
length-Inside zero lo [] d h = omega arith
length-Inside zero lo (c ∷ cs) d h = absurd (omega (arith, h.0))
length-Inside (suc n) lo cs d h = ground (
  arith,
  length-Inside n lo (without (lo + n) cs) (without-IsDistinct (lo + n) cs d),
  Inside-shrink lo n (without (lo + n) cs) (Inside-without lo (suc n) (lo + n) cs h),
  has_id-without (lo + n) (lo + n) cs d,
  length-without (lo + n) cs,
)

InRange-Inside : (lo hi n : ℕ) (cs : List Contact) → hi < lo + n → InRange lo hi cs → Inside lo n cs
InRange-Inside lo hi n [] h r = tt
InRange-Inside lo hi n (c ∷ cs) h r = ((r.0.0, omega (arith, r.0)), InRange-Inside lo hi n cs h r.1)

-- A bucket of three contacts or more that refuses another one of its tile has a range that can be
-- split.
pub full_is_wide :
    (k lo : ℕ) (b : KBucket) (c : Contact)
    → IsTile k lo b
    → length b.contacts ≡ k
    → has_id c.node_id b.contacts ≡ false
    → 2 < k
    → lo ≤ c.node_id
    → c.node_id ≤ b.range_max
    → b.range_min + 3 ≤ b.range_max
full_is_wide k lo b c v full new big l h = omega (
  arith,
  length-Inside (b.range_max + 1 - lo) lo (c ∷ b.contacts) (new, v.valid.distinct)
      (
        (l, omega (arith, v.nonempty, h)),
        InRange-Inside lo b.range_max (b.range_max + 1 - lo) b.contacts (omega (arith, v.nonempty))
            v.placed,
      ),
  full,
  v.starts,
)

-- A bound of the width of a bucket by a power of two.
abbrev pub IsNarrow : ℕ → KBucket → Type 0
IsNarrow n b = b.range_max ≤ b.range_min + 1 + 2 ^ n

-- A bucket that can be split is not narrow for 0, and its halves are narrow for one less.
pub halves-IsNarrow :
    (n k lo : ℕ) (b l r : KBucket)
    → IsSplit k lo b l r
    → IsNarrow (suc n) b
    → IsNarrow n l × IsNarrow n r
halves-IsNarrow n k lo b l r s h =
    let e = pow-suc 2 n in
    (
      omega (arith, e, s.middle_end, s.left_begin, h),
      omega (arith, e, s.middle_end, s.right_begin, s.same_end, h),
    )

-- The owner of a key after a split of its bucket.
pub split_owner :
    (key k lo hi : ℕ) (bs : List KBucket) (i : ℕ) (b l r : KBucket)
    → Tiles k lo hi bs
    → get_elem? bs i ≡ some b
    → IsSplit k (low_at lo bs i) b l r
    → low_at lo bs i ≤ key
    → key ≤ b.range_max
    → (o : Owner lo key k (replace_by_two i l r bs)) × ((o.bucket ≡ l) ⊎ (o.bucket ≡ r))
split_owner key k lo hi [] i b l r t g s p q = cc
split_owner key k lo hi (x ∷ bs) zero b l r t g s p q = elim (dec_le key l.range_max) [
  | yes h ↦ (
    record {
      index = 0;
      bucket = l;
      at = refl;
      below = omega arith;
      tile = s.left_tile;
      low = p;
      high = h;
    },
    inl refl,
  )
  | no h ↦ (
    record {
      index = 1;
      bucket = r;
      at = refl;
      below = omega arith;
      tile = s.right_tile;
      low = omega (arith, h);
      high = omega (arith, s.same_end, q);
    },
    inr refl,
  )
]
split_owner key k lo hi (x ∷ bs) (suc i) b l r t g s p q =
    let (o, e) = split_owner key k (x.range_max + 1) hi bs i b l r t.1 g s p q in
    (
      record {
        index = suc o.index;
        bucket = o.bucket;
        at = o.at;
        below = omega (arith, o.below);
        tile = o.tile;
        low = o.low;
        high = o.high;
      },
      e,
    )
