-- ===== src/KBucket/Collect.antt =====
-- `GetContacts` of src/kademlia/kbucket.cpp: the loop with its counter against a plain selection.
use kadpeer.Prelude.{ℕ, zero, suc, ◌≡◌, refl, ap, List, [], ◌∷◌, ◌++◌, arith, take, ◌≤◌, length}
use kadpeer.Contact.{Contact}
use kadpeer.Index.{remove_if}
use kadpeer.KBucket.{KBucket, is_excluded, take_contacts, get_contacts}

-- The contacts that are not left out, in their order.
abbrev pub allowed : List Contact → List Contact → List Contact
allowed exclude = remove_if (λ x. is_excluded x.node_id exclude)

pub take_contacts_lem :
    (n : ℕ) (exclude xs : List Contact) → take_contacts n exclude xs ≡ take n (allowed exclude xs)
unfolding take_contacts remove_if
take_contacts_lem zero exclude xs = refl
take_contacts_lem (suc n) exclude [] = refl
take_contacts_lem (suc n) exclude (x ∷ xs) =
    ground (arith, take_contacts_lem (suc n) exclude xs, take_contacts_lem n exclude xs)

-- `GetContacts` appends the first `count` of the contacts that are not excluded, in the order of the
-- bucket.
pub get_contacts_lem :
    (count : ℕ) (exclude contacts : List Contact) (b : KBucket)
    → get_contacts count exclude contacts b ≡ contacts ++ take count (allowed exclude b.contacts)
unfolding get_contacts
get_contacts_lem count exclude contacts b =
    ap (◌++◌ contacts) (take_contacts_lem count exclude b.contacts)

allowed-nil : (xs : List Contact) → allowed [] xs ≡ xs
unfolding remove_if is_excluded
allowed-nil [] = refl
allowed-nil (x ∷ xs) = ap (◌∷◌ x) (allowed-nil xs)

take_all {ℓ} : {A : Type ℓ} (n : ℕ) (xs : List A) → length xs ≤ n → take n xs ≡ xs
take_all zero [] h = refl
take_all zero (x ∷ xs) h = absurd (omega arith)
take_all (suc n) [] h = refl
take_all (suc n) (x ∷ xs) h = ap (◌∷◌ x) (take_all n xs (omega arith))

-- With nothing excluded and room for all, every contact is taken.
pub take_contacts_all : (n : ℕ) (xs : List Contact) → length xs ≤ n → take_contacts n [] xs ≡ xs
take_contacts_all n xs h = rw (take_contacts_lem n [] xs, allowed-nil xs) (take_all n xs h)
