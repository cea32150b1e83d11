-- ===== src/Index.antt =====
-- The ordered containers with unique keys that kadpeer keeps, as lists in the order of their keys:
-- `std::map`, and the first index (`ordered_unique`) of the `multi_index_container` of
-- src/kademlia/datastore.h. An operation is what the documentation of the containers says:
-- `insert` leaves an element with an equal key as it is, and `replace` fails where the new key
-- belongs to another element.
pub mod Laws
use kadpeer.Prelude.{◌≡◌, Bool, true, false, List, [], ◌∷◌, Option, none, some, if◌then◌else◌}
use kadpeer.Order.{Order, is_eq}
use Prim.Native.Nat.{Ordering}

-- Elements for which the test fails stay: the effect of erasing a range of an index.
unfoldable pub remove_if {κ} : {V : Type κ} → (V → Bool) → List V → List V
remove_if p [] = []
remove_if p (x ∷ xs) = if p x then remove_if p xs else x ∷ remove_if p xs

abbrev pub is_some {κ} : {V : Type κ} → Option V → Bool
is_some none = false
is_some (some v) = true

module _ {ℓ κ} {K : Type ℓ} {V : Type κ} (o : Order K) (key : V → K) where
  abbrev pub has_key : K → V → Bool
  has_key k v = is_eq (o.cmp k (key v))

  unfoldable pub find : K → List V → Option V
  find k [] = none
  find k (x ∷ xs) = if has_key k x then some x else find k xs

  unfoldable pub insert : V → List V → List V
  insert v [] = v ∷ []
  insert v (x ∷ xs) = elim (o.cmp (key v) (key x)) [
    | Ordering.lt ↦ v ∷ x ∷ xs
    | Ordering.eq ↦ x ∷ xs
    | Ordering.gt ↦ x ∷ insert v xs
  ]

  -- The element with the key `k` becomes `v`.
  unfoldable pub replace : K → V → List V → List V × Bool
  replace k v xs =
      let rest = remove_if (has_key k) xs in
      if is_some (find (key v) rest) then (xs, false) else (insert v rest, true)

  -- All keys lie above `k`.
  abbrev pub Above : K → List V → Type ℓ
  Above k [] = Unit
  Above k (x ∷ xs) = (o.cmp k (key x) ≡ Ordering.lt) × Above k xs

  -- The order of the container, which makes the keys unique.
  abbrev pub IsIndex : List V → Type ℓ
  IsIndex [] = Unit
  IsIndex (x ∷ xs) = Above (key x) xs × IsIndex xs
