-- ===== src/KBucket/Add.antt =====
-- `AddContact` of src/kademlia/kbucket.cpp: the contact comes to the front, and a full bucket refuses
-- the ones that it does not hold.
use kadpeer.Prelude.{ℕ, ◌≡◌, ◌≤◌, Bool, not, ◌&&◌, ◌∷◌, some, arith, ◌==◌, if◌then◌else◌, length}
use kadpeer.KadId.{KadId}
use kadpeer.Contact.{Contact}
use kadpeer.KBucket.{KBucket, succeed, full, init, add_contact, get_contact, find_contact}
use kadpeer.KBucket.Erase.{
  IsDistinct, has_id, without, erase_first, length-without, without_absent, without-IsDistinct,
  has_id-without, find-without,
}

-- At most K contacts, with distinct identifiers.
pub record IsValid (b : KBucket) : Type 0 where
  pub bounded : length b.contacts ≤ b.k
  pub distinct : IsDistinct b.contacts

pub init-IsValid : (min max : KadId) (k : ℕ) → IsValid (init min max k)
unfolding init
init-IsValid min max k = record { bounded = omega arith; distinct = tt }

-- Whether a bucket refuses a contact: it is full, and does not hold it.
abbrev pub refuses : KBucket → Contact → Bool
refuses b c = (length b.contacts == b.k) && not (has_id c.node_id b.contacts)

-- `AddContact` refuses a contact that a full bucket does not hold, and leaves the bucket as it was;
-- else it puts the contact in front, in place of the one that had its identifier.
pub add_contact_lem :
    (c : Contact) (b : KBucket)
    → IsValid b
    → add_contact c b ≡ (
        if refuses b c
        then (b, full)
        else (record b { contacts = c ∷ without c.node_id b.contacts }, succeed))
unfolding add_contact
add_contact_lem c b v = rw (erase_first c b.contacts) (
    ground
      (arith, length-without c.node_id b.contacts, without_absent c.node_id b.contacts, v.bounded))

pub add_contact-IsValid : (c : Contact) (b : KBucket) → IsValid b → IsValid (add_contact c b).0
add_contact-IsValid c b v = rw (add_contact_lem c b v) (
    ground (
      arith,
      length-without c.node_id b.contacts,
      without-IsDistinct c.node_id b.contacts v.distinct,
      has_id-without c.node_id c.node_id b.contacts v.distinct,
      v.bounded,
      v.distinct,
    ))

-- After `AddContact` the bucket finds the contact if it took it, and all others as before.
pub get_contact-add_contact :
    (j : KadId) (c : Contact) (b : KBucket)
    → IsValid b
    → get_contact j (add_contact c b).0
      ≡ (if not (refuses b c) && (c.node_id == j) then some c else get_contact j b)
unfolding find_contact
get_contact-add_contact j c b v =
    rw (add_contact_lem c b v) (ground (arith, find-without j c.node_id b.contacts v.distinct))
