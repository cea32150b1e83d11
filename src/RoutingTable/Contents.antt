-- ===== src/RoutingTable/Contents.antt =====
-- The routing table as a map from identifiers to contacts: which contact stands for an identifier,
-- and how the list of buckets (src/kademlia/kadroutingtable.cpp) changes under a write to one bucket
-- and under a split.
use kadpeer.Prelude.{
  ℕ, zero, suc, ◌+◌, ◌≤◌, ◌≡◌, refl, sym, ap, ◌&&◌, List, [], ◌∷◌, Option, none, some, arith, leb,
  if◌then◌else◌, get_elem?, set, length,
}
use kadpeer.KadId.{KadId}
use kadpeer.Contact.{Contact}
use kadpeer.KBucket.{KBucket, find_contact}
use kadpeer.Outcome.{done}
use kadpeer.RoutingTable.{RoutingTable, get_contact}
use kadpeer.RoutingTable.Buckets.{uppers_from, replace_by_two}
use kadpeer.RoutingTable.Lookup.{
  IsTile, Tiles, IsTable, low_at, owner_of, kbucket_index-Owner, low_at-ge,
}
use kadpeer.RoutingTable.Split.{IsSplit}

-- The contact that the buckets hold for an identifier.
unfoldable pub found : KadId → List KBucket → Option Contact
found j [] = none
found j (b ∷ bs) = if leb j b.range_max then find_contact j b.contacts else found j bs

pub found-at :
    (j k lo hi : ℕ) (bs : List KBucket) (i : ℕ) (b : KBucket)
    → Tiles k lo hi bs
    → get_elem? bs i ≡ some b
    → low_at lo bs i ≤ j
    → j ≤ b.range_max
    → found j bs ≡ find_contact j b.contacts
unfolding found
found-at j k lo hi [] i b t g l h = cc
found-at j k lo hi (c ∷ bs) zero b t g l h = ground arith
found-at j k lo hi (c ∷ bs) (suc i) b t g l h = ground (
  arith,
  found-at j k (c.range_max + 1) hi bs i b t.1 g l h,
  low_at-ge k (c.range_max + 1) hi bs i t.1,
)

-- `GetContact` reads the contact that the table holds for the identifier: the walk through the map of
-- upper ends and the index loses nothing.
pub get_contact-found :
    (floor : ℕ) (t : RoutingTable) (j : KadId)
    → IsTable floor t
    → floor ≤ j
    → j ≤ t.address_space_upper_address
    → get_contact j t ≡ done (found j t.k_buckets)
unfolding get_contact
get_contact-found floor t j v l h =
    let o = owner_of floor t v j l h in
    rw (kbucket_index-Owner floor t v j o h, o.at)
      (ap done (
        sym (
          found-at j t.k floor t.address_space_upper_address t.k_buckets o.index o.bucket v.tiles
            o.at o.low o.high)))

pub Tiles-set :
    (k lo hi : ℕ) (bs : List KBucket) (i : ℕ) (b c : KBucket)
    → Tiles k lo hi bs
    → get_elem? bs i ≡ some b
    → IsTile k (low_at lo bs i) c
    → c.range_max ≡ b.range_max
    → Tiles k lo hi (set bs i c)
Tiles-set k lo hi [] i b c t g v e = t
Tiles-set k lo hi (x ∷ bs) zero b c t g v e = ground (arith, t, v)
Tiles-set k lo hi (x ∷ bs) (suc i) b c t g v e =
    (t.0, Tiles-set k (x.range_max + 1) hi bs i b c t.1 g v e)

pub uppers-set :
    (j : ℕ) (bs : List KBucket) (i : ℕ) (b c : KBucket)
    → get_elem? bs i ≡ some b
    → c.range_max ≡ b.range_max
    → uppers_from j (set bs i c) ≡ uppers_from j bs
unfolding uppers_from
uppers-set j [] i b c g e = refl
uppers-set j (x ∷ bs) zero b c g e = ground arith
uppers-set j (x ∷ bs) (suc i) b c g e = rw (uppers-set (j + 1) bs i b c g e)

pub found-set :
    (j k lo hi : ℕ) (bs : List KBucket) (i : ℕ) (b c : KBucket)
    → Tiles k lo hi bs
    → get_elem? bs i ≡ some b
    → c.range_max ≡ b.range_max
    → lo ≤ j
    → found j (set bs i c) ≡ (
        if leb (low_at lo bs i) j && leb j b.range_max
        then find_contact j c.contacts
        else found j bs)
unfolding found
found-set j k lo hi [] i b c t g e l = cc
found-set j k lo hi (x ∷ bs) zero b c t g e l = ground arith
found-set j k lo hi (x ∷ bs) (suc i) b c t g e l = ground (
  arith,
  found-set j k (x.range_max + 1) hi bs i b c t.1 g e,
  low_at-ge k (x.range_max + 1) hi bs i t.1,
)

module _ (k : ℕ) (l r : KBucket) where
  pub Tiles-replace_by_two :
      (lo hi : ℕ) (bs : List KBucket) (i : ℕ) (b : KBucket)
      → Tiles k lo hi bs
      → get_elem? bs i ≡ some b
      → IsSplit k (low_at lo bs i) b l r
      → Tiles k lo hi (replace_by_two i l r bs)
  Tiles-replace_by_two lo hi [] i b t g s = cc
  Tiles-replace_by_two lo hi (x ∷ bs) zero b t g s =
      ground (arith, t, s.left_tile, s.right_tile, s.same_end)
  Tiles-replace_by_two lo hi (x ∷ bs) (suc i) b t g s =
      (t.0, Tiles-replace_by_two (x.range_max + 1) hi bs i b t.1 g s)

  pub found-replace_by_two :
      (j lo hi : ℕ) (bs : List KBucket) (i : ℕ) (b : KBucket)
      → Tiles k lo hi bs
      → get_elem? bs i ≡ some b
      → IsSplit k (low_at lo bs i) b l r
      → lo ≤ j
      → found j (replace_by_two i l r bs) ≡ found j bs
  unfolding found
  found-replace_by_two j lo hi [] i b t g s h = cc
  found-replace_by_two j lo hi (x ∷ bs) zero b t g s h =
      ground (arith, s.finds j, s.same_end, s.right_tile.nonempty)
  found-replace_by_two j lo hi (x ∷ bs) (suc i) b t g s h =
      ground (arith, found-replace_by_two j (x.range_max + 1) hi bs i b t.1 g s)

pub length-replace_by_two {ℓ} :
    {A : Type ℓ} (i : ℕ) (l r b : A) (bs : List A)
    → get_elem? bs i ≡ some b
    → length (replace_by_two i l r bs) ≡ length bs + 1
length-replace_by_two i l r b [] g = cc
length-replace_by_two zero l r b (x ∷ bs) g = omega arith
length-replace_by_two (suc i) l r b (x ∷ bs) g = omega (arith, length-replace_by_two i l r b bs g)
