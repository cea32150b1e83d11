-- ===== src/RoutingTable/Lookup.antt =====
-- The invariant of the routing table: the ranges of the buckets tile the identifiers from a floor to
-- the upper end, every contact lies in the tile of its bucket, and the map of upper ends says which
-- bucket that is. On such a table `KBucketIndex` finds the one bucket whose tile has the key.
use kadpeer.Prelude.{
  ℕ, zero, suc, ◌+◌, ◌%◌, ◌≤◌, ◌<◌, ◌≡◌, refl, List, [], ◌∷◌, some, arith, get_elem?, length,
}
use kadpeer.Word.{u16_mod}
use native.Mathlib.Decide.{dec_le}
use kadpeer.KadId.{KadId}
use kadpeer.Contact.{Contact}
use kadpeer.KBucket.{KBucket}
use kadpeer.KBucket.Add
use kadpeer.Outcome.{done}
use kadpeer.RoutingTable.{RoutingTable, lower_bound, kbucket_index}
use kadpeer.RoutingTable.Buckets.{put_upper, uppers_from}

-- All identifiers lie from `lo` to `hi`.
abbrev pub InRange : ℕ → ℕ → List Contact → Type 0
InRange lo hi [] = Unit {0}
InRange lo hi (c ∷ cs) = ((lo ≤ c.node_id) × (c.node_id ≤ hi)) × InRange lo hi cs

-- A bucket that serves the identifiers from `lo` to the end of its range. The begin of its range lies
-- at most two below `lo`, since the ranges that a split makes overlap.
pub record IsTile (k lo : ℕ) (b : KBucket) : Type 0 where
  pub valid : Add.IsValid b
  pub same_k : b.k ≡ k
  pub starts : b.range_min ≤ lo
  pub near : lo ≤ b.range_min + 2
  pub nonempty : lo ≤ b.range_max
  pub placed : InRange lo b.range_max b.contacts

abbrev pub Tiles : ℕ → ℕ → ℕ → List KBucket → Type 0
Tiles k lo hi [] = lo ≡ hi + 1
Tiles k lo hi (b ∷ bs) = IsTile k lo b × Tiles k (b.range_max + 1) hi bs

pub record IsTable (floor : ℕ) (t : RoutingTable) : Type 0 where
  pub tiles : Tiles t.k floor t.address_space_upper_address t.k_buckets
  pub uppers : t.bucket_upper_address ≡ uppers_from 0 t.k_buckets
  pub few : length t.k_buckets ≤ 32768
  pub holder : t.bucket_of_holder < length t.k_buckets

-- Where the tile of a position begins.
abbrev pub low_at : ℕ → List KBucket → ℕ → ℕ
low_at lo [] i = lo
low_at lo (b ∷ bs) zero = lo
low_at lo (b ∷ bs) (suc i) = low_at (b.range_max + 1) bs i

-- The bucket that serves a key.
pub record Owner (floor : ℕ) (key : KadId) (k : ℕ) (bs : List KBucket) : Type 0 where
  pub index : ℕ
  pub bucket : KBucket
  pub at : get_elem? bs index ≡ some bucket
  pub below : index < length bs
  pub tile : IsTile k (low_at floor bs index) bucket
  pub low : low_at floor bs index ≤ key
  pub high : key ≤ bucket.range_max

owner :
    (key k lo hi : ℕ) (bs : List KBucket)
    → Tiles k lo hi bs
    → lo ≤ key
    → key ≤ hi
    → Owner lo key k bs
owner key k lo hi [] t l h = absurd (omega arith)
owner key k lo hi (b ∷ bs) t l h = elim (dec_le key b.range_max) [
  | yes p ↦ record {
    index = 0;
    bucket = b;
    at = refl;
    below = omega arith;
    tile = t.0;
    low = l;
    high = p;
  }
  | no p ↦
      let o = owner key k (b.range_max + 1) hi bs t.1 (omega arith) h in
      record {
        index = suc o.index;
        bucket = o.bucket;
        at = o.at;
        below = omega (arith, o.below);
        tile = o.tile;
        low = o.low;
        high = o.high;
      }
]

pub low_at-ge : (k lo hi : ℕ) (bs : List KBucket) (i : ℕ) → Tiles k lo hi bs → lo ≤ low_at lo bs i
low_at-ge k lo hi [] i t = omega arith
low_at-ge k lo hi (b ∷ bs) zero t = omega arith
low_at-ge k lo hi (b ∷ bs) (suc i) t =
    omega (arith, low_at-ge k (b.range_max + 1) hi bs i t.1, t.0.nonempty)

-- On tiles the map of upper ends lists them in the order of the buckets.
uppers_front :
    (k lo hi j : ℕ) (b : KBucket) (bs : List KBucket)
    → Tiles k lo hi (b ∷ bs)
    → uppers_from j (b ∷ bs) ≡ (b.range_max, j % u16_mod) ∷ uppers_from (j + 1) bs
unfolding uppers_from put_upper
uppers_front k lo hi j b [] t = refl
uppers_front k lo hi j b (c ∷ bs) t =
    ground (arith, uppers_front k (b.range_max + 1) hi (j + 1) c bs t.1, t.1.0.nonempty)

lower_bound-uppers :
    (key k lo hi j : ℕ) (bs : List KBucket) (i : ℕ) (b : KBucket)
    → Tiles k lo hi bs
    → get_elem? bs i ≡ some b
    → low_at lo bs i ≤ key
    → key ≤ b.range_max
    → lower_bound key (uppers_from j bs) ≡ some (b.range_max, (j + i) % u16_mod)
unfolding lower_bound
lower_bound-uppers key k lo hi j [] i b t g l h = cc
lower_bound-uppers key k lo hi j (c ∷ bs) zero b t g l h =
    rw (uppers_front k lo hi j c bs t) (ground arith)
lower_bound-uppers key k lo hi j (c ∷ bs) (suc i) b t g l h = rw (uppers_front k lo hi j c bs t) (
    ground (
      arith,
      lower_bound-uppers key k (c.range_max + 1) hi (j + 1) bs i b t.1 g l h,
      low_at-ge k (c.range_max + 1) hi bs i t.1,
    ))

module _ (floor : ℕ) (t : RoutingTable) (v : IsTable floor t) (key : KadId) where
  pub owner_of : floor ≤ key → key ≤ t.address_space_upper_address → Owner floor key t.k t.k_buckets
  owner_of l h = owner key t.k floor t.address_space_upper_address t.k_buckets v.tiles l h

  -- On a table that is in order, `KBucketIndex` of a key gives the index of a bucket whose tile has
  -- the key.
  pub kbucket_index-Owner :
      (o : Owner floor key t.k t.k_buckets)
      → key ≤ t.address_space_upper_address
      → kbucket_index key t ≡ done o.index
  unfolding kbucket_index
  kbucket_index-Owner o h = ground (
    arith,
    v.uppers,
    v.few,
    o.below,
    lower_bound-uppers key t.k floor t.address_space_upper_address 0 t.k_buckets o.index o.bucket
        v.tiles o.at o.low o.high,
  )
