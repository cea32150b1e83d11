-- ===== src/KBucket/Erase.antt =====
-- Erasing by position, as src/kademlia/kbucket.cpp does it, is erasing by identifier.
use kadpeer.Prelude.{
  ℕ, ◌+◌, ◌≡◌, refl, Bool, true, false, List, [], ◌∷◌, Option, none, some, arith, ◌==◌,
  if◌then◌else◌, length,
}
use kadpeer.KadId.{KadId}
use kadpeer.Contact.{Contact}
use kadpeer.KBucket.{find_position, erase_at, erase_found, last_position, find_contact}

-- The list without the first contact that has the identifier.
unfoldable pub without : KadId → List Contact → List Contact
without id [] = []
without id (x ∷ xs) = if x.node_id == id then xs else x ∷ without id xs

-- Whether some contact has the identifier.
unfoldable pub has_id : KadId → List Contact → Bool
has_id id [] = false
has_id id (x ∷ xs) = if x.node_id == id then true else has_id id xs

-- No identifier stands twice.
abbrev pub IsDistinct : List Contact → Type 0
IsDistinct [] = Unit {0}
IsDistinct (x ∷ xs) = (has_id x.node_id xs ≡ false) × IsDistinct xs

abbrev shift : ℕ → Option ℕ → Option ℕ
shift i none = none
shift i (some p) = some (i + p)

find_position-shift :
    (c : Contact) (i : ℕ) (xs : List Contact)
    → find_position c i xs ≡ shift i (find_position c 0 xs)
unfolding find_position
find_position-shift c i [] = refl
find_position-shift c i (x ∷ xs) =
    ground (arith, find_position-shift c (i + 1) xs, find_position-shift c 1 xs)

pub erase_first :
    (c : Contact) (xs : List Contact) → erase_found (find_position c 0 xs) xs ≡ without c.node_id xs
unfolding find_position erase_at without
erase_first c [] = refl
erase_first c (x ∷ xs) = ground (arith, erase_first c xs, find_position-shift c 1 xs)

last_position_absent :
    (id : KadId) (i : ℕ) (p : Option ℕ) (xs : List Contact)
    → has_id id xs ≡ false
    → last_position id i p xs ≡ p
unfolding last_position has_id
last_position_absent id i p [] h = refl
last_position_absent id i p (x ∷ xs) h = ground (arith, last_position_absent id (i + 1) p xs)

last_position-shift :
    (id : KadId) (i : ℕ) (p : Option ℕ) (xs : List Contact)
    → last_position id (i + 1) (shift 1 p) xs ≡ shift 1 (last_position id i p xs)
unfolding last_position
last_position-shift id i p [] = refl
last_position-shift id i p (x ∷ xs) =
    ground (arith, last_position-shift id (i + 1) p xs, last_position-shift id (i + 1) (some i) xs)

pub without_absent : (id : KadId) (xs : List Contact) → has_id id xs ≡ false → without id xs ≡ xs
unfolding without has_id
without_absent id [] h = refl
without_absent id (x ∷ xs) h = ground (arith, without_absent id xs)

-- Where identifiers are distinct, the last contact with one is the first.
pub erase_last :
    (id : KadId) (xs : List Contact)
    → IsDistinct xs
    → erase_found (last_position id 0 none xs) xs ≡ without id xs
unfolding last_position erase_at without
erase_last id [] d = refl
erase_last id (x ∷ xs) d = ground (
  arith,
  erase_last id xs d.1,
  last_position-shift id 0 none xs,
  last_position_absent id 1 (some 0) xs,
  without_absent id xs,
)

pub has_id-without :
    (j id : KadId) (xs : List Contact)
    → IsDistinct xs
    → has_id j (without id xs) ≡ (if j == id then false else has_id j xs)
unfolding has_id without
has_id-without j id [] d = ground arith
has_id-without j id (x ∷ xs) d = ground (arith, has_id-without j id xs d.1)

pub without-IsDistinct :
    (id : KadId) (xs : List Contact) → IsDistinct xs → IsDistinct (without id xs)
unfolding without
without-IsDistinct id [] d = tt
without-IsDistinct id (x ∷ xs) d =
    ground (arith, without-IsDistinct id xs d.1, has_id-without x.node_id id xs d.1)

pub length-without :
    (id : KadId) (xs : List Contact)
    → length (without id xs) + (if has_id id xs then 1 else 0) ≡ length xs
unfolding without has_id
length-without id [] = refl
length-without id (x ∷ xs) = ground (arith, length-without id xs)

find_absent : (id : KadId) (xs : List Contact) → has_id id xs ≡ false → find_contact id xs ≡ none
unfolding find_contact has_id
find_absent id [] h = refl
find_absent id (x ∷ xs) h = ground (arith, find_absent id xs)

pub find-without :
    (j id : KadId) (xs : List Contact)
    → IsDistinct xs
    → find_contact j (without id xs) ≡ (if j == id then none else find_contact j xs)
unfolding find_contact without has_id
find-without j id [] d = ground arith
find-without j id (x ∷ xs) d = ground (arith, find-without j id xs d.1, find_absent id xs)
