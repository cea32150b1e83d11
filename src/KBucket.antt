-- ===== src/KBucket.antt =====
-- src/kademlia/kbucket.h and kbucket.cpp: a bucket of the routing table, at most K contacts of a
-- range of identifiers, the one added last in front.
pub mod Erase
pub mod Add
pub mod Remove
pub mod Collect
use kadpeer.Prelude.{
  ℕ, zero, suc, ◌+◌, ◌≡◌, Bool, true, false, not, ◌&&◌, List, [], ◌∷◌, ◌++◌, Option, none, some,
  ◌==◌, if◌then◌else◌, length,
}
use kadpeer.Prelude.Int.{ℤ}
use kadpeer.KadId.{KadId, le_id}
use kadpeer.Contact.{Contact, equals, default_contact}

pub data KBucketExitCode : Type 0 where
  succeed full fail : KBucketExitCode

pub record KBucket : Type 0 where
  pub last_accessed : ℕ
  pub contacts : List Contact
  pub range_min : KadId
  pub range_max : KadId
  pub k : ℕ

-- `KBucket(min, max, kb_K)`
unfoldable pub init : KadId → KadId → ℕ → KBucket
init min max kb_k = record {
  last_accessed = 0;
  contacts = [];
  range_min = min;
  range_max = max;
  k = kb_k;
}

unfoldable pub key_in_range : KBucket → KadId → Bool
unfolding le_id
key_in_range b key = le_id b.range_min key && le_id key b.range_max

abbrev pub size : KBucket → ℕ
size b = length b.contacts

abbrev pub set_last_accessed : ℕ → KBucket → KBucket
set_last_accessed time b = record b { last_accessed = time }

-- The first loop of `AddContact`: the position of the first contact that equals the new one, with
-- `i` the counter.
unfoldable pub find_position : Contact → ℕ → List Contact → Option ℕ
find_position c i [] = none
find_position c i (x ∷ xs) = if equals c x then some i else find_position c (i + 1) xs

-- `erase` at a position
unfoldable pub erase_at : ℕ → List Contact → List Contact
erase_at i [] = []
erase_at zero (x ∷ xs) = xs
erase_at (suc i) (x ∷ xs) = x ∷ erase_at i xs

abbrev pub erase_found : Option ℕ → List Contact → List Contact
erase_found none xs = xs
erase_found (some i) xs = erase_at i xs

unfoldable pub add_contact : Contact → KBucket → KBucket × KBucketExitCode
unfolding find_position erase_at
add_contact new_contact b =
    let rest = erase_found (find_position new_contact 0 b.contacts) b.contacts in
    if length rest == b.k
    then (record b { contacts = rest }, full)
    else (record b { contacts = new_contact ∷ rest }, succeed)

-- The loop of `RemoveContact`, which goes on to the last contact with the identifier.
unfoldable pub last_position : KadId → ℕ → Option ℕ → List Contact → Option ℕ
last_position id i position [] = position
last_position id i position (x ∷ xs) =
    last_position id (i + 1) (if x.node_id == id then some i else position) xs

unfoldable pub remove_contact : KadId → KBucket → KBucket
unfolding last_position erase_at
remove_contact id b = record b {
  contacts = erase_found (last_position id 0 none b.contacts) b.contacts;
}

-- `GetContact`; `none` where the source returns false.
unfoldable pub find_contact : KadId → List Contact → Option Contact
find_contact id [] = none
find_contact id (x ∷ xs) = if x.node_id == id then some x else find_contact id xs

abbrev pub get_contact : KadId → KBucket → Option Contact
get_contact id b = find_contact id b.contacts

-- The inner loop of `GetContacts`: whether a contact is to be left out.
unfoldable pub is_excluded : KadId → List Contact → Bool
is_excluded id [] = false
is_excluded id (x ∷ xs) = if id == x.node_id then true else is_excluded id xs

-- The outer loop of `GetContacts`, with the number of contacts that may still be taken.
unfoldable pub take_contacts : ℕ → List Contact → List Contact → List Contact
take_contacts zero exclude xs = []
take_contacts (suc n) exclude [] = []
take_contacts (suc n) exclude (x ∷ xs) = elim (is_excluded x.node_id exclude) [
  | true ↦ take_contacts (suc n) exclude xs
  | false ↦ x ∷ take_contacts n exclude xs
]

-- `GetContacts` appends to the contacts of its caller.
unfoldable pub get_contacts : ℕ → List Contact → List Contact → KBucket → List Contact
get_contacts count exclude contacts b = contacts ++ take_contacts count exclude b.contacts

abbrev pub last_of : Contact → List Contact → Contact
last_of d [] = d
last_of d (x ∷ xs) = last_of x xs

-- `LastSeenContact`; the argument is what a new contact holds in the field that no constructor sets.
unfoldable pub last_seen_contact : ℤ → KBucket → Contact
last_seen_contact unset b = last_of (default_contact unset) b.contacts
