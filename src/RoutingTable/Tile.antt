-- ===== src/RoutingTable/Tile.antt =====
-- The changes of one bucket keep its tile, and a change of one bucket keeps the invariant of the
-- routing table (src/kademlia/kadroutingtable.cpp).
use kadpeer.Prelude.{ℕ, ◌≤◌, ◌≡◌, refl, sym, List, [], ◌∷◌, arith, length-set, ◌∙◌, ◌⊎◌, none}
use kadpeer.KadId.{KadId}
use kadpeer.Contact.{Contact}
use kadpeer.KBucket.{KBucket, find_contact}
use kadpeer.KBucket
use kadpeer.KBucket.Add
use kadpeer.KBucket.Remove
use kadpeer.KBucket.Erase.{without}
use kadpeer.RoutingTable.{RoutingTable, init, set_bucket}
use kadpeer.RoutingTable.Buckets.{uppers_from}
use kadpeer.RoutingTable.Lookup.{InRange, IsTile, IsTable, Owner, low_at}
use kadpeer.RoutingTable.Contents.{found, found-at, Tiles-set, uppers-set, found-set}

InRange-without :
    (lo hi : ℕ) (id : KadId) (cs : List Contact) → InRange lo hi cs → InRange lo hi (without id cs)
unfolding without
InRange-without lo hi id [] h = tt
InRange-without lo hi id (c ∷ cs) h = ground (arith, InRange-without lo hi id cs h.1)

-- A bucket with other contacts of its range.
IsTile-contacts :
    (k lo : ℕ) (b c : KBucket)
    → IsTile k lo b
    → Add.IsValid c
    → c.k ≡ b.k
    → c.range_min ≡ b.range_min
    → c.range_max ≡ b.range_max
    → InRange lo c.range_max c.contacts
    → IsTile k lo c
IsTile-contacts k lo b c v w ek el eh p = record {
  valid = w;
  same_k = ek ∙ v.same_k;
  starts = omega (arith, v.starts);
  near = omega (arith, v.near);
  nonempty = omega (arith, v.nonempty);
  placed = p;
}

module _ (k lo : ℕ) (b : KBucket) (v : IsTile k lo b) where
  pub add_contact-IsTile :
      (c : Contact)
      → lo ≤ c.node_id
      → c.node_id ≤ b.range_max
      → IsTile k lo (KBucket.add_contact c b).0
  add_contact-IsTile c l h =
      IsTile-contacts k lo b (KBucket.add_contact c b).0 v (Add.add_contact-IsValid c b v.valid)
        (rw (Add.add_contact_lem c b v.valid) (ground arith))
        (rw (Add.add_contact_lem c b v.valid) (ground arith))
        (rw (Add.add_contact_lem c b v.valid) (ground arith))
        (rw (Add.add_contact_lem c b v.valid)
          (ground (arith, v.placed, InRange-without lo b.range_max c.node_id b.contacts v.placed)))

  pub add_contact-range_max : (c : Contact) → (KBucket.add_contact c b).0.range_max ≡ b.range_max
  add_contact-range_max c = rw (Add.add_contact_lem c b v.valid) (ground arith)

  pub remove_contact-IsTile : (id : KadId) → IsTile k lo (KBucket.remove_contact id b)
  remove_contact-IsTile id =
      IsTile-contacts k lo b (KBucket.remove_contact id b) v
        (Remove.remove_contact-IsValid id b v.valid) (rw (Remove.remove_contact_lem id b v.valid))
        (rw (Remove.remove_contact_lem id b v.valid)) (rw (Remove.remove_contact_lem id b v.valid))
        (rw (Remove.remove_contact_lem id b v.valid)
          (InRange-without lo b.range_max id b.contacts v.placed))

  pub remove_contact-range_max :
      (id : KadId) → (KBucket.remove_contact id b).range_max ≡ b.range_max
  remove_contact-range_max id = rw (Remove.remove_contact_lem id b v.valid)

module _ (floor : ℕ) (t : RoutingTable) (v : IsTable floor t) where
  -- The bucket that serves a key may be given other contacts of its tile.
  pub set_bucket-IsTable :
      (key : KadId) (o : Owner floor key t.k t.k_buckets) (c : KBucket)
      → IsTile t.k (low_at floor t.k_buckets o.index) c
      → c.range_max ≡ o.bucket.range_max
      → IsTable floor (set_bucket o.index c t)
  set_bucket-IsTable key o c w e = record {
    tiles =
        Tiles-set t.k floor t.address_space_upper_address t.k_buckets o.index o.bucket c v.tiles
          o.at w e;
    uppers = v.uppers ∙ sym (uppers-set 0 t.k_buckets o.index o.bucket c o.at e);
    few = omega (arith, length-set {0} t.k_buckets o.index c, v.few);
    holder = omega (arith, length-set {0} t.k_buckets o.index c, v.holder);
  }

  -- The table then holds for the key what the bucket holds.
  pub found-set_bucket :
      (key : KadId) (o : Owner floor key t.k t.k_buckets) (c : KBucket)
      → c.range_max ≡ o.bucket.range_max
      → floor ≤ key
      → found key (set_bucket o.index c t).k_buckets ≡ find_contact key c.contacts
  found-set_bucket key o c e l = ground (
    arith,
    found-set key t.k floor t.address_space_upper_address t.k_buckets o.index o.bucket c v.tiles
        o.at e l,
    o.low,
    o.high,
  )

module _ (floor : ℕ) (t : RoutingTable) (v : IsTable floor t) where
  -- Where a bucket lost contacts, the table lost no others.
  pub set_bucket-others :
      (key : KadId) (o : Owner floor key t.k t.k_buckets) (c : KBucket)
      → c.range_max ≡ o.bucket.range_max
      → (j : KadId) → floor ≤ j
      → (find_contact j c.contacts ≡ find_contact j o.bucket.contacts)
        ⊎ (find_contact j c.contacts ≡ none)
      → (found j (set_bucket o.index c t).k_buckets ≡ found j t.k_buckets)
        ⊎ (found j (set_bucket o.index c t).k_buckets ≡ none)
  set_bucket-others key o c e j l h = ground (
    arith,
    found-set j t.k floor t.address_space_upper_address t.k_buckets o.index o.bucket c v.tiles o.at
        e l,
    found-at j t.k floor t.address_space_upper_address t.k_buckets o.index o.bucket v.tiles o.at,
    h,
  )

module _ (floor : ℕ) (t : RoutingTable) (v : IsTable floor t) where
  -- What a bucket still finds, the table still finds.
  pub set_bucket-same :
      (key : KadId) (o : Owner floor key t.k t.k_buckets) (c : KBucket)
      → c.range_max ≡ o.bucket.range_max
      → (j : KadId) → floor ≤ j
      → find_contact j c.contacts ≡ find_contact j o.bucket.contacts
      → found j (set_bucket o.index c t).k_buckets ≡ found j t.k_buckets
  set_bucket-same key o c e j l h = ground (
    arith,
    found-set j t.k floor t.address_space_upper_address t.k_buckets o.index o.bucket c v.tiles o.at
        e l,
    found-at j t.k floor t.address_space_upper_address t.k_buckets o.index o.bucket v.tiles o.at,
    h,
  )

-- A new table is in order, with the begin of its first range for floor.
pub init-IsTable :
    (min_range upper holder_id : KadId) (rt_k : ℕ)
    → min_range ≤ upper
    → IsTable min_range (init min_range upper holder_id rt_k)
unfolding init KBucket.init uppers_from kadpeer.Index.insert
init-IsTable min_range upper holder_id rt_k h = record {
  tiles = (
    record {
      valid = record { bounded = omega arith; distinct = tt };
      same_k = refl;
      starts = omega arith;
      near = omega arith;
      nonempty = h;
      placed = tt;
    },
    refl,
  );
  uppers = refl;
  few = omega arith;
  holder = omega arith;
}
