-- ===== src/RoutingTable/Membership.antt =====
-- What `GetContact` of the routing table (src/kademlia/kadroutingtable.cpp) finds after `AddContact`,
-- `RemoveContact` and `TouchKBucket`.
use kadpeer.Prelude.{
  ℕ, zero, suc, ◌+◌, ◌^◌, ◌≤◌, ◌<◌, ◌≡◌, ◌≢◌, refl, sym, ap, List, [], ◌∷◌, some, none, arith,
  if◌then◌else◌, get_elem?, length, inl, inr, ◌⊎◌, ◌∙◌, ◌==◌, ==_iff, Bool-cases,
}
use kadpeer.Prelude.Int.{ℤ, pos}
use kadpeer.KadId.{KadId, BigInt}
use kadpeer.Contact.{Contact}
use kadpeer.KBucket.{KBucket, find_contact, set_last_accessed}
use kadpeer.KBucket
use kadpeer.KBucket.Remove
use kadpeer.Outcome.{Outcome, done, ◌>>=◌}
use kadpeer.RoutingTable.{RoutingTable, set_bucket, remove_contact, get_contact, touch_kbucket}
use kadpeer.RoutingTable.Buckets.{add_contact}
use kadpeer.RoutingTable.Lookup.{Tiles, IsTable, low_at, low_at-ge, owner_of, kbucket_index-Owner}
use kadpeer.RoutingTable.Contents.{found, found-at, found-set, get_contact-found}
use kadpeer.RoutingTable.Tile.{remove_contact-IsTile, remove_contact-range_max, set_bucket-IsTable}
use kadpeer.RoutingTable.Force.{Answer}
use kadpeer.RoutingTable.Added.{add_contact-Answers}

range_max-le :
    (k lo hi : ℕ) (bs : List KBucket) (i : ℕ) (b : KBucket)
    → Tiles k lo hi bs
    → get_elem? bs i ≡ some b
    → b.range_max ≤ hi
range_max-le k lo hi [] i b t g = cc
range_max-le k lo hi (x ∷ []) zero b t g = ground (arith, t)
range_max-le k lo hi (x ∷ y ∷ bs) zero b t g =
    ground (arith, range_max-le k (x.range_max + 1) hi (y ∷ bs) zero y t.1 refl, t.1.0.nonempty)
range_max-le k lo hi (x ∷ bs) (suc i) b t g = range_max-le k (x.range_max + 1) hi bs i b t.1 g

-- The answer of `AddContact` on a table with at most 2 ^ n identifiers from the floor
add_contact-Answer :
    (bi : BigInt) (fresh_id floor : KadId) (c : Contact) (n : ℕ) (t : RoutingTable)
    → IsTable floor t
    → 2 < t.k
    → t.address_space_upper_address < floor + 2 ^ n
    → length t.k_buckets + n ≤ 32768
    → floor ≤ c.node_id
    → c.node_id ≤ t.address_space_upper_address
    → Answer floor c t (add_contact bi fresh_id (suc n) c t)
add_contact-Answer bi fresh_id floor c n t v big wide room l h =
    let o = owner_of floor t v c.node_id l h in
    let end =
      range_max-le t.k floor t.address_space_upper_address t.k_buckets o.index o.bucket v.tiles
        o.at in
    let low = low_at-ge t.k floor t.address_space_upper_address t.k_buckets o.index v.tiles in
    add_contact-Answers bi fresh_id floor c n t v l h big o
      (omega (arith, end, low, o.tile.near, wide)) room

-- On a table in order with K above 2, whose identifiers from the floor are at most 2 ^ n, `AddContact`
-- returns within n + 1 calls of itself, for a contact of the table and at most 32768 - n buckets.
-- The table stays in order, and either the result is 0 and `GetContact` finds the contact that was
-- added, or the result is 2 and `GetContact` finds for each identifier what it found before.
pub add_contact-get_contact :
    (bi : BigInt) (fresh_id floor : KadId) (c : Contact) (n : ℕ) (t : RoutingTable) (j : KadId)
    → IsTable floor t
    → 2 < t.k
    → t.address_space_upper_address < floor + 2 ^ n
    → length t.k_buckets + n ≤ 32768
    → floor ≤ c.node_id
    → c.node_id ≤ t.address_space_upper_address
    → floor ≤ j
    → j ≤ t.address_space_upper_address
    → (t' : RoutingTable) × (code : ℤ) × (add_contact bi fresh_id (suc n) c t ≡ done (t', code))
      × IsTable floor t'
      × (((code ≡ pos 0) × (get_contact c.node_id t' ≡ done (some c)))
          ⊎ ((code ≡ pos 2) × (get_contact j t' ≡ get_contact j t)))
add_contact-get_contact bi fresh_id floor c n t j v big wide room l h jl jh =
    let a = add_contact-Answer bi fresh_id floor c n t v big wide room l h in
    (
      a.table,
      a.code,
      a.returns,
      a.in_order,
      elim a.codes [
        | inl e ↦ inl (
          e,
          get_contact-found floor a.table c.node_id a.in_order l (omega (arith, a.same_upper, h))
              ∙ ap done (a.taken e),
        )
        | inr e ↦ inr (
          e,
          get_contact-found floor a.table j a.in_order jl (omega (arith, a.same_upper, jh))
              ∙ (ap done (a.refused e j jl) ∙ sym (get_contact-found floor t j v jl jh)),
        )
      ],
    )

module _ (floor : ℕ) (c : Contact) (t : RoutingTable) (r : Outcome (RoutingTable × ℤ))
    (a : Answer floor c t r) (v : IsTable floor t) where
  get_contact-table :
      (j : KadId)
      → floor ≤ j
      → j ≤ t.address_space_upper_address
      → get_contact j a.table ≡ done (found j a.table.k_buckets)
  get_contact-table j l h =
      get_contact-found floor a.table j a.in_order l (omega (arith, a.same_upper, h))

  get_contact-kept :
      (j : KadId)
      → floor ≤ j
      → j ≤ t.address_space_upper_address
      → j ≢ c.node_id
      → j ≢ a.displaced
      → get_contact j a.table ≡ get_contact j t
  get_contact-kept j l h n m =
      get_contact-table j l h ∙ (ap done (a.kept j l n m) ∙ sym (get_contact-found floor t j v l h))

  get_contact-others :
      (j : KadId)
      → floor ≤ j
      → j ≤ t.address_space_upper_address
      → j ≢ c.node_id
      → (get_contact j a.table ≡ get_contact j t) ⊎ (get_contact j a.table ≡ done none)
  get_contact-others j l h n = elim (a.others j l n) [
    | inl e ↦ inl (get_contact-table j l h ∙ (ap done e ∙ sym (get_contact-found floor t j v l h)))
    | inr e ↦ inr (get_contact-table j l h ∙ ap done e)
  ]

  -- Of two other identifiers at most one loses its contact.
  one_displaced :
      (i j : KadId)
      → floor ≤ i
      → i ≤ t.address_space_upper_address
      → floor ≤ j
      → j ≤ t.address_space_upper_address
      → i ≢ c.node_id
      → j ≢ c.node_id
      → i ≢ j
      → (get_contact i a.table ≡ get_contact i t)
        ⊎ (get_contact i a.table ≡ done none) × (get_contact j a.table ≡ get_contact j t)
  one_displaced i j il ih jl jh ni nj ne = elim (Bool-cases (i == a.displaced)) [
    | inr other ↦ inl (get_contact-kept i il ih ni (ground (arith, ==_iff i a.displaced)))
    | inl gone ↦
        let kept = get_contact-kept j jl jh nj (ground (arith, ==_iff i a.displaced)) in
        elim (get_contact-others i il ih ni) [ inl e ↦ inl e | inr e ↦ inr (e, kept) ]
  ]

-- Under the same conditions `AddContact` leaves for two other identifiers the contacts that stood for
-- them, or takes away the contact of one and leaves that of the other: a call displaces one contact at
-- most, and adds or changes no other one than its own.
pub add_contact-displaces :
    (bi : BigInt) (fresh_id floor : KadId) (c : Contact) (n : ℕ) (t : RoutingTable) (i j : KadId)
    → IsTable floor t
    → 2 < t.k
    → t.address_space_upper_address < floor + 2 ^ n
    → length t.k_buckets + n ≤ 32768
    → floor ≤ c.node_id
    → c.node_id ≤ t.address_space_upper_address
    → floor ≤ i
    → i ≤ t.address_space_upper_address
    → floor ≤ j
    → j ≤ t.address_space_upper_address
    → i ≢ c.node_id
    → j ≢ c.node_id
    → i ≢ j
    → (t' : RoutingTable) × (code : ℤ) × (add_contact bi fresh_id (suc n) c t ≡ done (t', code))
      × ((get_contact i t' ≡ get_contact i t)
          ⊎ (get_contact i t' ≡ done none) × (get_contact j t' ≡ get_contact j t))
add_contact-displaces bi fresh_id floor c n t i j v big wide room l h il ih jl jh ni nj ne =
    let a = add_contact-Answer bi fresh_id floor c n t v big wide room l h in
    (a.table, a.code, a.returns, one_displaced floor c t _ a v i j il ih jl jh ni nj ne)

module _ (floor : ℕ) (t : RoutingTable) (v : IsTable floor t) (key : KadId) (l : floor ≤ key)
    (h : key ≤ t.address_space_upper_address) where
  -- The bucket of the key, without it.
  abbrev gone : KBucket
  gone = KBucket.remove_contact key (owner_of floor t v key l h).bucket

  -- The table without the key.
  abbrev removed : RoutingTable
  removed = set_bucket (owner_of floor t v key l h).index gone t

  remove_contact-removed : remove_contact key t ≡ done removed
  unfolding remove_contact
  remove_contact-removed =
      let o = owner_of floor t v key l h in rw (kbucket_index-Owner floor t v key o h, o.at) refl

  -- `RemoveContact` of an identifier of the table keeps the table in order.
  removed-IsTable : IsTable floor removed
  removed-IsTable =
      let o = owner_of floor t v key l h in
      let low = low_at floor t.k_buckets o.index in
      set_bucket-IsTable floor t v key o gone (remove_contact-IsTile t.k low o.bucket o.tile key)
        (remove_contact-range_max t.k low o.bucket o.tile key)

  removed-found :
      (j : KadId)
      → floor ≤ j
      → found j removed.k_buckets ≡ (if j == key then none else found j t.k_buckets)
  removed-found j jl =
      let o = owner_of floor t v key l h in
      let low = low_at floor t.k_buckets o.index in
      ground (
        arith,
        found-set j t.k floor t.address_space_upper_address t.k_buckets o.index o.bucket gone
            v.tiles o.at (remove_contact-range_max t.k low o.bucket o.tile key) jl,
        Remove.get_contact-remove_contact j key o.bucket o.tile.valid,
        found-at j t.k floor t.address_space_upper_address t.k_buckets o.index o.bucket v.tiles
            o.at,
        o.low,
        o.high,
      )

  -- After `RemoveContact` of an identifier of a table in order, `GetContact` does not find it, and
  -- finds every other identifier as before.
  pub remove_contact-get_contact :
      (j : KadId)
      → floor ≤ j
      → j ≤ t.address_space_upper_address
      → (remove_contact key t >>= get_contact j) ≡ (if j == key then done none else get_contact j t)
  remove_contact-get_contact j jl jh =
      rw
        (
          remove_contact-removed,
          get_contact-found floor removed j removed-IsTable jl jh,
          removed-found j jl,
          get_contact-found floor t j v jl jh,
        )
        (ground arith)

  -- `TouchKBucket` of an identifier of the table keeps the table in order.
  pub touch_kbucket-IsTable :
      (now : ℕ) → (t' : RoutingTable) × (touch_kbucket now key t ≡ done t') × IsTable floor t'
  unfolding touch_kbucket
  touch_kbucket-IsTable now =
      let o = owner_of floor t v key l h in
      let b = KBucket.set_last_accessed now o.bucket in
      (
        set_bucket o.index b t,
        rw (kbucket_index-Owner floor t v key o h, o.at) refl,
        set_bucket-IsTable floor t v key o b
            (record {
              valid = record { bounded = o.tile.valid.bounded; distinct = o.tile.valid.distinct };
              same_k = o.tile.same_k;
              starts = o.tile.starts;
              near = o.tile.near;
              nonempty = o.tile.nonempty;
              placed = o.tile.placed;
            })
            refl,
      )
