-- ===== src/KBucket/Remove.antt =====
-- `RemoveContact` of src/kademlia/kbucket.cpp.
use kadpeer.Prelude.{◌≡◌, arith, none, if◌then◌else◌, ◌==◌}
use kadpeer.KadId.{KadId}
use kadpeer.KBucket.{KBucket, remove_contact, get_contact}
use kadpeer.KBucket.Erase.{without, erase_last, length-without, without-IsDistinct, find-without}
use kadpeer.KBucket.Add.{IsValid}

-- Of a valid bucket the loop to the last position erases the one contact with the identifier.
pub remove_contact_lem :
    (id : KadId) (b : KBucket)
    → IsValid b
    → remove_contact id b ≡ record b { contacts = without id b.contacts }
unfolding remove_contact
remove_contact_lem id b v = rw (erase_last id b.contacts v.distinct)

pub remove_contact-IsValid : (id : KadId) (b : KBucket) → IsValid b → IsValid (remove_contact id b)
remove_contact-IsValid id b v = rw (remove_contact_lem id b v) (record {
  bounded = omega (arith, length-without id b.contacts, v.bounded);
  distinct = without-IsDistinct id b.contacts v.distinct;
})

-- After `RemoveContact` the identifier is not found, and all others are found as before.
pub get_contact-remove_contact :
    (j id : KadId) (b : KBucket)
    → IsValid b
    → get_contact j (remove_contact id b) ≡ (if j == id then none else get_contact j b)
get_contact-remove_contact j id b v =
    rw (remove_contact_lem id b v) (find-without j id b.contacts v.distinct)
