-- ===== src/RoutingTable/Force.antt =====
-- `ForceKAcceptNewPeer` of src/kademlia/kadroutingtable.cpp: the contact that the scores choose is one
-- of the brother bucket, and the new contact takes its place.
use kadpeer.Prelude.{
  All, ℕ, zero, suc, ◌+◌, ◌-◌, ◌≤◌, ◌<◌, ◌≡◌, ◌≢◌, refl, false, List, [], ◌∷◌, some, none, arith,
  ltb, if◌then◌else◌, get_elem?, length, ◌==◌, ◌∙◌, drop, ◌⊎◌, inl, inr, Option-cases, Bool-cases,
}
use kadpeer.Prelude.Int.{ℤ, pos, negsuc}
use kadpeer.KadId.{KadId, BigInt, closer_to_target}
use kadpeer.Contact.{Contact}
use kadpeer.KBucket.{KBucket, find_contact, get_contacts, take_contacts}
use kadpeer.KBucket
use kadpeer.KBucket.Erase.{length-without}
use kadpeer.KBucket.Add
use kadpeer.KBucket.Remove
use kadpeer.KBucket.Collect.{take_contacts_all}
use kadpeer.Outcome.{Outcome, done, ◌>>=◌}
use kadpeer.RoutingTable.{RoutingTable, set_bucket}
use kadpeer.RoutingTable.Buckets.{
  sort, compare_distance, get_least_useful_contact, accept_after, accept_at,
  force_k_accept_new_peer, refuse_or_force,
}
use kadpeer.RoutingTable.Lookup.{IsTile, IsTable, Owner, low_at, Tiles}
use kadpeer.RoutingTable.Contents.{found}
use kadpeer.RoutingTable.Tile.{
  add_contact-IsTile, add_contact-range_max, remove_contact-IsTile, remove_contact-range_max,
  set_bucket-IsTable, found-set_bucket, set_bucket-others, set_bucket-same,
}
use kadpeer.RoutingTable.Entries.{
  All-Within, Within, drop-All, get_least_useful_contact-Within, length-sort, sort-All,
}

-- What a call that may take a contact leaves: a table in order, with a result of 0 where it holds the
-- contact and of 2 where no identifier stands for another contact than before. No other identifier
-- stands for a contact that it did not stand for, and none but `displaced` loses its contact.
pub record Answer (floor : ℕ) (c : Contact) (t : RoutingTable) (r : Outcome (RoutingTable × ℤ))
    : Type 0 where
  pub table : RoutingTable
  pub code : ℤ
  pub returns : r ≡ done (table, code)
  pub in_order : IsTable floor table
  pub codes : (code ≡ pos 0) ⊎ (code ≡ pos 2)
  pub taken : code ≡ pos 0 → found c.node_id table.k_buckets ≡ some c
  pub refused :
      code ≡ pos 2 → (j : KadId) → floor ≤ j → found j table.k_buckets ≡ found j t.k_buckets
  pub others :
      (j : KadId)
      → floor ≤ j
      → j ≢ c.node_id
      → (found j table.k_buckets ≡ found j t.k_buckets) ⊎ (found j table.k_buckets ≡ none)
  pub displaced : KadId
  pub kept :
      (j : KadId)
      → floor ≤ j
      → j ≢ c.node_id
      → j ≢ displaced
      → found j table.k_buckets ≡ found j t.k_buckets
  pub same_k : table.k ≡ t.k
  pub same_upper : table.address_space_upper_address ≡ t.address_space_upper_address

-- The answer of a call that changes nothing.
refusal :
    (floor : ℕ) (c : Contact) (t : RoutingTable)
    → IsTable floor t
    → Answer floor c t (done (t, pos 2))
refusal floor c t v = record {
  table = t;
  code = pos 2;
  returns = refl;
  in_order = v;
  codes = inr refl;
  taken = λ e. cc;
  refused = λ e j l. refl;
  others = λ j l n. inl refl;
  displaced = c.node_id;
  kept = λ j l n m. refl;
  same_k = refl;
  same_upper = refl;
}

-- The result of `ForceKAcceptNewPeer` as `AddContact` passes it on.
abbrev passed_on : RoutingTable × ℤ → Outcome (RoutingTable × ℤ)
passed_on r = done (r.0, elim r.1 [ pos n ↦ (if n == 0 then pos 0 else pos 2) | negsuc n ↦ pos 2 ])

module _ (bi : BigInt) (fresh_id : KadId) (floor : ℕ) (c : Contact) (t : RoutingTable)
    (v : IsTable floor t) (o : Owner floor c.node_id t.k t.k_buckets) (l : floor ≤ c.node_id)
    (at_brother : o.index ≡ t.brother_bucket_of_holder) where
  -- The bucket after the exchange.
  abbrev exchanged : Contact → KBucket
  exchanged least = (KBucket.add_contact c (KBucket.remove_contact least.node_id o.bucket)).0

  exchanged-find :
      (least : Contact)
      → Within o.bucket.contacts least
      → find_contact c.node_id (exchanged least).contacts ≡ some c
  exchanged-find least w =
      let removed = Remove.remove_contact-IsValid least.node_id o.bucket o.tile.valid in
      ground (
        arith,
        Add.get_contact-add_contact c.node_id c (KBucket.remove_contact least.node_id o.bucket)
            removed,
        Remove.remove_contact_lem least.node_id o.bucket o.tile.valid,
        length-without least.node_id o.bucket.contacts,
        w,
        o.tile.valid.bounded,
      )

  exchanged-others :
      (least : Contact) (j : KadId)
      → j ≢ c.node_id
      → (find_contact j (exchanged least).contacts ≡ find_contact j o.bucket.contacts)
        ⊎ (find_contact j (exchanged least).contacts ≡ none)
  exchanged-others least j n =
      let removed = Remove.remove_contact-IsValid least.node_id o.bucket o.tile.valid in
      ground (
        arith,
        Add.get_contact-add_contact j c (KBucket.remove_contact least.node_id o.bucket) removed,
        Remove.get_contact-remove_contact j least.node_id o.bucket o.tile.valid,
        n,
      )

  exchanged-kept :
      (least : Contact) (j : KadId)
      → j ≢ c.node_id
      → j ≢ least.node_id
      → find_contact j (exchanged least).contacts ≡ find_contact j o.bucket.contacts
  exchanged-kept least j n m =
      let removed = Remove.remove_contact-IsValid least.node_id o.bucket o.tile.valid in
      ground (
        arith,
        Add.get_contact-add_contact j c (KBucket.remove_contact least.node_id o.bucket) removed,
        Remove.get_contact-remove_contact j least.node_id o.bucket o.tile.valid,
        n,
        m,
      )

  accept_after-Answer :
      (cs : List Contact)
      → All (Within o.bucket.contacts) cs
      → Answer floor c t (accept_after bi fresh_id c cs t >>= passed_on)
  unfolding accept_after
  accept_after-Answer [] w = refusal floor c t v
  accept_after-Answer (d ∷ cs) w =
      elim (Bool-cases (closer_to_target bi d.node_id c.node_id t.holder_id)) [
        | inl e ↦ rw e (refusal floor c t v)
        | inr e ↦ elim (Option-cases (get_least_useful_contact bi fresh_id t.holder_id (d ∷ cs))) [
          | inl n ↦ rw (e, n) (refusal floor c t v)
          | inr (least, n) ↦
              let gone =
                remove_contact-IsTile t.k (low_at floor t.k_buckets o.index) o.bucket o.tile
                  least.node_id in
              let end =
                remove_contact-range_max t.k (low_at floor t.k_buckets o.index) o.bucket o.tile
                  least.node_id in
              let new_end : (exchanged least).range_max ≡ o.bucket.range_max =
                add_contact-range_max t.k (low_at floor t.k_buckets o.index) _ gone c ∙ end in
              rw (e, n)
                (record {
                  table = set_bucket o.index (exchanged least) t;
                  code = pos 0;
                  returns = ground (arith, at_brother, o.at);
                  in_order =
                      set_bucket-IsTable floor t v c.node_id o (exchanged least)
                        (add_contact-IsTile t.k (low_at floor t.k_buckets o.index) _ gone c o.low
                          (rw end o.high))
                        new_end;
                  codes = inl refl;
                  taken = λ z.
                      found-set_bucket floor t v c.node_id o (exchanged least) new_end l
                      ∙ exchanged-find least (
                          get_least_useful_contact-Within o.bucket.contacts bi fresh_id t.holder_id
                            (d ∷ cs) least w n);
                  refused = λ z. cc;
                  others = λ j jl n.
                      set_bucket-others floor t v c.node_id o (exchanged least) new_end j jl
                        (exchanged-others least j n);
                  displaced = least.node_id;
                  kept = λ j jl n m.
                      set_bucket-same floor t v c.node_id o (exchanged least) new_end j jl
                        (exchanged-kept least j n m);
                  same_k = refl;
                  same_upper = refl;
                })
        ]
      ]

  accept_at-Answer :
      (b : KBucket) (held : ℕ)
      → get_elem? t.k_buckets t.bucket_of_holder ≡ some b
      → held ≤ t.k
      → length o.bucket.contacts ≡ t.k
      → Answer floor c t (accept_at bi fresh_id c (t.k - held) t >>= passed_on)
  unfolding accept_at get_contacts
  accept_at-Answer b held g h full =
      let less = compare_distance bi fresh_id t.holder_id in
      let taken = take_contacts_all t.k o.bucket.contacts (omega (arith, full)) in
      let there : get_elem? t.k_buckets t.brother_bucket_of_holder ≡ some o.bucket =
        ground (arith, at_brother, o.at) in
      let room : ltb (length (sort less o.bucket.contacts)) (t.k - held - 1) ≡ false =
        ground (arith, length-sort less o.bucket.contacts, full) in
      rw (there, taken, room)
        (accept_after-Answer (drop (t.k - held - 1) (sort less o.bucket.contacts)) (
          drop-All (Within o.bucket.contacts) (t.k - held - 1) (sort less o.bucket.contacts) (
            sort-All (Within o.bucket.contacts) less o.bucket.contacts
              (All-Within o.bucket.contacts))))

pub IsTile-at :
    (k lo hi : ℕ) (bs : List KBucket) (i : ℕ)
    → Tiles k lo hi bs
    → i < length bs
    → (b : KBucket) × (get_elem? bs i ≡ some b) × IsTile k (low_at lo bs i) b
IsTile-at k lo hi [] i t h = absurd (omega arith)
IsTile-at k lo hi (b ∷ bs) zero t h = (b, refl, t.0)
IsTile-at k lo hi (b ∷ bs) (suc i) t h = IsTile-at k (b.range_max + 1) hi bs i t.1 (omega arith)

-- A full bucket that is not split: `ForceKAcceptNewPeer` never leaves its lists, and either the new
-- contact takes the place of another one of the brother bucket, or nothing changes.
pub refuse_or_force-Answer :
    (bi : BigInt) (fresh_id : KadId) (floor : ℕ) (c : Contact) (t : RoutingTable)
    → IsTable floor t
    → (o : Owner floor c.node_id t.k t.k_buckets) → floor ≤ c.node_id
    → length o.bucket.contacts ≡ t.k
    → Answer floor c t (refuse_or_force bi fresh_id c o.index t)
unfolding refuse_or_force force_k_accept_new_peer
refuse_or_force-Answer bi fresh_id floor c t v o l full =
    elim (Bool-cases (o.index == t.brother_bucket_of_holder)) [
      | inr e ↦ rw e (refusal floor c t v)
      | inl e ↦
          let (b, g, tile) =
            IsTile-at t.k floor t.address_space_upper_address t.k_buckets t.bucket_of_holder v.tiles
              v.holder in
          let fits : length b.contacts ≤ t.k = omega (arith, tile.valid.bounded, tile.same_k) in
          rw (e, g)
            (elim (Bool-cases (length b.contacts == t.k)) [
              | inl q ↦ rw q (refusal floor c t v)
              | inr q ↦
                  let ok : ltb t.k (length b.contacts) ≡ false = ground (arith, fits) in
                  rw (q, ok)
                    (accept_at-Answer bi fresh_id floor c t v o l (ground (arith, e)) b
                      (length b.contacts) g fits full)
            ])
    ]
