-- ===== src/RoutingTable/Nearest.antt =====
-- The parts of `RoutingTable` (src/kademlia/kadroutingtable.cpp) that order by distance:
-- `SortBucketsByDistance`, `SortContactsByDistance`, `FindCloseNodes` and `GetFurthestContacts`.
use kadpeer.Prelude.{
  ℕ, Bool, true, false, List, [], ◌∷◌, ◌++◌, length, take, drop, map, ◌==◌, if◌then◌else◌,
}
use kadpeer.Prelude.Int.{ℤ, pos, negsuc}
use kadpeer.Order.{nat_order}
use kadpeer.Index.{insert}
use kadpeer.Word.{to_u16}
use kadpeer.KadId.{KadId, BigInt, distance}
use kadpeer.Contact.{Contact}
use kadpeer.KBucket.{KBucket}
use kadpeer.KBucket
use kadpeer.Outcome.{Outcome, done, ◌>>=◌}
use kadpeer.RoutingTable.{RoutingTable, kbucket_index, bucket_at}

-- The loops that fill a `std::map` by the distance to a key: the first element with a distance stays.
module _ {ℓ} {A : Type ℓ} (bi : BigInt) (key : KadId) (id : A → KadId) where
  abbrev pub insert_by_distance : A → List A → List A
  insert_by_distance = insert nat_order (λ a. distance bi (id a) key)

  unfoldable pub by_distance : List A → List A → List A
  by_distance [] acc = acc
  by_distance (a ∷ rest) acc = by_distance rest (insert_by_distance a acc)

unfoldable pub sort_buckets_by_distance : BigInt → KadId → RoutingTable → List ℕ
sort_buckets_by_distance bi key t =
    map (λ e. e.1) (by_distance bi key (λ e. e.0) t.bucket_upper_address [])

-- The contacts after the call, and whether the result is 0.
unfoldable pub sort_contacts_by_distance : BigInt → KadId → List Contact → List Contact × Bool
sort_contacts_by_distance bi key contacts =
    let sorted = by_distance bi key (λ c. c.node_id) contacts [] in
    (sorted, length sorted == length contacts)

-- `count == static_cast<int>(close_nodes->size())`
abbrev pub reached : ℤ → List Contact → Bool
reached (pos n) close = n == length close
reached (negsuc n) close = false

-- The inner loop of `FindCloseNodes`: the nodes, and whether there are enough.
unfoldable pub fill : ℤ → List Contact → List Contact → List Contact × Bool
fill count close [] = (close, false)
fill count close (c ∷ cs) =
    let close' = close ++ (c ∷ []) in
    if reached count close' then (close', true) else fill count close' cs

-- One turn of its outer loop
abbrev pub fill_from :
    BigInt → KadId → ℤ → List Contact → RoutingTable → KBucket → List Contact → List Contact × Bool
fill_from bi key count exclude t b close =
    let (contacts, ok) = sort_contacts_by_distance bi key (KBucket.get_contacts t.k exclude [] b) in
    if ok then fill count close contacts else (close, false)

unfoldable pub fill_all :
    BigInt
    → KadId
    → ℤ
    → List Contact
    → RoutingTable
    → List ℕ
    → List Contact
    → Outcome (List Contact)
fill_all bi key count exclude t [] close = done close
fill_all bi key count exclude t (index ∷ indices) close = do
  b ← bucket_at index t
  let (close', full) = fill_from bi key count exclude t b close
  let rest = fill_all bi key count exclude t indices close'
  if full then done close' else rest

-- `FindCloseNodes`, which leaves the first of the buckets by distance out of the loop. The count of
-- `GetContacts` is an `unsigned short`.
unfoldable pub find_close_nodes :
    BigInt → KadId → ℤ → List Contact → RoutingTable → List Contact → Outcome (List Contact)
find_close_nodes bi key count exclude t close = do
  index ← kbucket_index key t
  b ← bucket_at index t
  let close' = KBucket.get_contacts (to_u16 count) exclude close b
  let rest = fill_all bi key count exclude t (drop 1 (sort_buckets_by_distance bi key t)) close'
  if reached count close' then done close' else rest

-- The contacts of all buckets, after those of the caller
unfoldable pub all_contacts : ℕ → List Contact → List KBucket → List Contact → List Contact
all_contacts k exclude [] close = close
all_contacts k exclude (b ∷ bs) close =
    all_contacts k exclude bs (KBucket.get_contacts k exclude close b)

unfoldable pub reverse {ℓ} : {A : Type ℓ} → List A → List A
reverse [] = []
reverse (x ∷ xs) = reverse xs ++ (x ∷ [])

-- `GetFurthestContacts`; the test `count < -1` of an `unsigned short` never holds.
unfoldable pub get_furthest_contacts :
    BigInt → KadId → ℕ → List Contact → RoutingTable → List Contact → List Contact
get_furthest_contacts bi key count exclude t close =
    let (contacts, ok) =
      sort_contacts_by_distance bi key (all_contacts t.k exclude t.k_buckets close) in
    if count == 0 then [] else if ok then take count (reverse contacts) else []
