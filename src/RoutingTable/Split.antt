-- ===== src/RoutingTable/Split.antt =====
-- `SplitKbucket` of src/kademlia/kadroutingtable.cpp: the contacts of a bucket are parted between two
-- buckets that tile its range.
use kadpeer.Prelude.{
  ℕ, ◌+◌, ◌/◌, ◌≤◌, ◌<◌, ◌≡◌, refl, Bool, false, not, List, [], ◌∷◌, none, arith, leb,
  if◌then◌else◌, length, Bool-cases, inl, inr,
}
use kadpeer.Index.{remove_if}
use kadpeer.KadId.{KadId, split_range, le_id}
use kadpeer.Contact.{Contact}
use kadpeer.KBucket.{KBucket, key_in_range, find_contact, get_contacts, take_contacts}
use kadpeer.KBucket
use kadpeer.KBucket.Erase.{has_id, IsDistinct, without_absent}
use kadpeer.KBucket.Add
use kadpeer.KBucket.Collect.{take_contacts_all}
use kadpeer.RoutingTable.Buckets.{distribute, halves}
use kadpeer.RoutingTable.Lookup.{InRange, IsTile}

has_id-remove_if :
    (j : KadId) (p : Contact → Bool) (cs : List Contact)
    → has_id j cs ≡ false
    → has_id j (remove_if p cs) ≡ false
unfolding has_id remove_if
has_id-remove_if j p [] h = refl
has_id-remove_if j p (c ∷ cs) h = ground (arith, has_id-remove_if j p cs)

IsDistinct-remove_if :
    (p : Contact → Bool) (cs : List Contact) → IsDistinct cs → IsDistinct (remove_if p cs)
unfolding remove_if
IsDistinct-remove_if p [] d = tt
IsDistinct-remove_if p (c ∷ cs) d =
    ground (arith, IsDistinct-remove_if p cs d.1, has_id-remove_if c.node_id p cs)

length-remove_if : (p : Contact → Bool) (cs : List Contact) → length (remove_if p cs) ≤ length cs
unfolding remove_if
length-remove_if p [] = omega arith
length-remove_if p (c ∷ cs) = ground (arith, length-remove_if p cs)

-- Selecting by identifier keeps what is found under the identifiers that are kept.
find-select :
    (j : KadId) (p : KadId → Bool) (cs : List Contact)
    → find_contact j (remove_if (λ c. p c.node_id) cs) ≡ (if p j then none else find_contact j cs)
unfolding find_contact remove_if
find-select j p [] = ground arith
find-select j p (c ∷ cs) = ground (arith, find-select j p cs)

-- The two sides of a split, with the range of the left one.
abbrev lefts : KBucket → List Contact → List Contact
lefts l = remove_if (λ c. not (key_in_range l c.node_id))

abbrev rights : KBucket → List Contact → List Contact
rights l = remove_if (λ c. key_in_range l c.node_id)

abbrev parted : KBucket → KBucket → List Contact → KBucket × KBucket
parted l r cs = (record l { contacts = lefts l cs }, record r { contacts = rights l cs })

add_front :
    (c : Contact) (b : KBucket)
    → IsDistinct b.contacts
    → has_id c.node_id b.contacts ≡ false
    → length b.contacts < b.k
    → (KBucket.add_contact c b).0 ≡ record b { contacts = c ∷ b.contacts }
add_front c b d n h =
    rw (Add.add_contact_lem c b (record { bounded = omega arith; distinct = d }))
      (ground (arith, without_absent c.node_id b.contacts, n, h))

key_in_range-contacts :
    (b : KBucket) (cs : List Contact) (j : KadId)
    → key_in_range (record b { contacts = cs }) j ≡ key_in_range b j
unfolding key_in_range
key_in_range-contacts b cs j = refl

-- The loop of `SplitKbucket` parts the contacts by the left range and keeps their order.
distribute_lem :
    (cs : List Contact) (l r : KBucket)
    → l.contacts ≡ []
    → r.contacts ≡ []
    → l.k ≡ r.k
    → IsDistinct cs
    → length cs ≤ l.k
    → distribute cs (l, r) ≡ parted l r cs
unfolding distribute remove_if
distribute_lem [] l r el er ek d h = ground (arith, el, er)
distribute_lem (c ∷ cs) l r el er ek d h =
    let left = record l { contacts = lefts l cs } in
    let right = record r { contacts = rights l cs } in
    rw
      (
        distribute_lem cs l r el er ek d.1 (omega arith),
        key_in_range-contacts l (lefts l cs) c.node_id,
      )
      (elim (Bool-cases (key_in_range l c.node_id)) [
        | inl e ↦ rw (
          e,
          add_front c left (IsDistinct-remove_if _ cs d.1) (has_id-remove_if c.node_id _ cs d.0) (
              omega
                (arith, length-remove_if (λ (x : Contact). not (key_in_range l x.node_id)) cs, h)),
        )
        | inr e ↦ rw (
          e,
          add_front c right (IsDistinct-remove_if _ cs d.1) (has_id-remove_if c.node_id _ cs d.0) (
              omega
                (arith, length-remove_if (λ (x : Contact). key_in_range l x.node_id) cs, h, ek)),
        )
      ])

InRange-lefts :
    (lo hi : ℕ) (b : KBucket) (cs : List Contact)
    → InRange lo hi cs
    → InRange lo b.range_max (lefts b cs)
unfolding remove_if key_in_range le_id
InRange-lefts lo hi b [] h = tt
InRange-lefts lo hi b (c ∷ cs) h = ground (arith, InRange-lefts lo hi b cs h.1)

InRange-rights :
    (lo hi : ℕ) (b : KBucket) (cs : List Contact)
    → b.range_min ≤ lo
    → InRange lo hi cs
    → InRange (b.range_max + 1) hi (rights b cs)
unfolding remove_if key_in_range le_id
InRange-rights lo hi b [] s h = tt
InRange-rights lo hi b (c ∷ cs) s h = ground (arith, InRange-rights lo hi b cs s h.1)

find-parted :
    (j : KadId) (l : KBucket) (cs : List Contact)
    → l.range_min ≤ j
    → find_contact j cs
      ≡ (if leb j l.range_max then find_contact j (lefts l cs) else find_contact j (rights l cs))
unfolding key_in_range le_id
find-parted j l cs h = ground (
  arith,
  find-select j (λ (i : KadId). not (key_in_range l i)) cs,
  find-select j (λ (i : KadId). key_in_range l i) cs,
)

-- The buckets that a split begins with.
abbrev left_of : ℕ → KBucket → KBucket
left_of k b = KBucket.init b.range_min (split_range b.range_min b.range_max).0 k

abbrev right_of : ℕ → KBucket → KBucket
right_of k b = KBucket.init (split_range b.range_min b.range_max).1 b.range_max k

-- What `find_contact` sees in the half that serves the key is what it saw in the whole.
pub record IsSplit (k lo : ℕ) (b l r : KBucket) : Type 0 where
  pub left_tile : IsTile k lo l
  pub right_tile : IsTile k (l.range_max + 1) r
  pub same_end : r.range_max ≡ b.range_max
  pub left_begin : l.range_min ≡ b.range_min
  pub middle_end : l.range_max ≡ b.range_min / 2 + b.range_max / 2 + 1
  pub right_begin : r.range_min + 1 ≡ l.range_max
  pub finds :
      (j : KadId)
      → lo ≤ j
      → find_contact j b.contacts
        ≡ (if leb j l.range_max then find_contact j l.contacts else find_contact j r.contacts)

module _ (k lo : ℕ) (b : KBucket) (v : IsTile k lo b) (wide : b.range_min + 3 ≤ b.range_max) where
  halves_lem : halves k b ≡ parted (left_of k b) (right_of k b) b.contacts
  unfolding halves get_contacts KBucket.init
  halves_lem = rw (take_contacts_all k b.contacts (omega (arith, v.valid.bounded, v.same_k))) (
      distribute_lem b.contacts (left_of k b) (right_of k b) refl refl refl v.valid.distinct
        (omega (arith, v.valid.bounded, v.same_k)))

  -- The buckets of a split tile the tile of the bucket that they replace, and hold its contacts.
  pub halves-IsSplit : IsSplit k lo b (halves k b).0 (halves k b).1
  unfolding split_range KBucket.init
  halves-IsSplit = rw halves_lem (record {
    left_tile = record {
      valid = record {
        bounded = omega (
          arith,
          length-remove_if (λ (x : Contact). not (key_in_range (left_of k b) x.node_id)) b.contacts,
          v.valid.bounded,
          v.same_k,
        );
        distinct = IsDistinct-remove_if _ b.contacts v.valid.distinct;
      };
      same_k = refl;
      starts = v.starts;
      near = v.near;
      nonempty = omega (arith, v.starts, v.near, wide);
      placed = InRange-lefts lo b.range_max (left_of k b) b.contacts v.placed;
    };
    right_tile = record {
      valid = record {
        bounded = omega (
          arith,
          length-remove_if (λ (x : Contact). key_in_range (left_of k b) x.node_id) b.contacts,
          v.valid.bounded,
          v.same_k,
        );
        distinct = IsDistinct-remove_if _ b.contacts v.valid.distinct;
      };
      same_k = refl;
      starts = omega arith;
      near = omega arith;
      nonempty = omega (arith, wide);
      placed = InRange-rights lo b.range_max (left_of k b) b.contacts v.starts v.placed;
    };
    same_end = refl;
    left_begin = refl;
    middle_end = refl;
    right_begin = refl;
    finds = λ j l. find-parted j (left_of k b) b.contacts (omega (arith, v.starts, l));
  })
