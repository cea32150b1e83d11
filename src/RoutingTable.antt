-- ===== src/RoutingTable.antt =====
-- src/kademlia/kadroutingtable.h and kadroutingtable.cpp: the buckets of a node in the order of their
-- ranges, with the map from the upper end of each range to its index. `index_of_holder` and the like
-- are values of `unsigned short`.
pub mod Buckets
pub mod Lookup
pub mod Split
pub mod Contents
pub mod Tile
pub mod Entries
pub mod Force
pub mod Crowd
pub mod Add
pub mod Added
pub mod Membership
pub mod Nearest
pub mod Distance
pub mod Close
use kadpeer.Prelude.{
  ℕ, zero, suc, ◌+◌, ◌%◌, Bool, true, false, List, [], ◌∷◌, ◌++◌, Option, none, some, ltb,
  if◌then◌else◌, get_elem?, set, length, drop, ◌||◌,
}
use kadpeer.Prelude.Int.{ℤ, pos}
use kadpeer.Order.{nat_order}
use kadpeer.Index.{insert}
use kadpeer.Word.{sub32}
use kadpeer.KadId.{KadId, middle}
use kadpeer.Contact.{Contact, default_contact}
use kadpeer.KBucket.{KBucket}
use kadpeer.KBucket
use kadpeer.Outcome.{Outcome, done, undefined, out_of_fuel, ◌>>=◌, access}

pub record RoutingTable : Type 0 where
  pub k_buckets : List KBucket
  -- `std::map<KadID, unsigned short int>`
  pub bucket_upper_address : List (KadId × ℕ)
  pub holder_id : KadId
  pub bucket_of_holder : ℕ
  pub brother_bucket_of_holder : ℕ
  pub address_space_upper_address : KadId
  pub k : ℕ

abbrev pub insert_upper : KadId × ℕ → List (KadId × ℕ) → List (KadId × ℕ)
insert_upper = insert nat_order (λ e. e.0)

-- What `-1` is as an `unsigned short`.
abbrev pub no_bucket : ℕ
no_bucket = 65535

-- `RoutingTable(holder_id, rt_K)`. The range of the first bucket begins at a default `KadID`, which
-- is the hash of the time of the call, here `min_range`; `upper` is `KMaxID()`.
unfoldable pub init : KadId → KadId → KadId → ℕ → RoutingTable
init min_range upper holder_id rt_k = record {
  k_buckets = KBucket.init min_range upper rt_k ∷ [];
  bucket_upper_address = insert_upper (upper, 0) [];
  holder_id = holder_id;
  bucket_of_holder = 0;
  brother_bucket_of_holder = no_bucket;
  address_space_upper_address = upper;
  k = rt_k;
}

-- `Clear`, which takes a default `KadID` too.
unfoldable pub clear : KadId → RoutingTable → RoutingTable
clear min_range t = record t {
  k_buckets = KBucket.init min_range t.address_space_upper_address t.k ∷ [];
  bucket_upper_address = insert_upper (t.address_space_upper_address, 0) [];
}

-- `std::map::lower_bound`: the first entry whose key is not below; `none` at the end.
unfoldable pub lower_bound : KadId → List (KadId × ℕ) → Option (KadId × ℕ)
lower_bound key [] = none
lower_bound key (e ∷ es) = if ltb e.0 key then lower_bound key es else some e

-- `KBucketIndex`, which reads the entry of `lower_bound` without a check.
unfoldable pub kbucket_index : KadId → RoutingTable → Outcome ℕ
unfolding lower_bound
kbucket_index key t =
    if ltb t.address_space_upper_address key
    then done no_bucket
    else (access (lower_bound key t.bucket_upper_address) >>= λ e. done e.1)

-- `k_buckets_[index]`
abbrev pub bucket_at : ℕ → RoutingTable → Outcome KBucket
bucket_at index t = access (get_elem? t.k_buckets index)

abbrev pub set_bucket : ℕ → KBucket → RoutingTable → RoutingTable
set_bucket index b t = record t { k_buckets = set t.k_buckets index b }

-- `GetContact`, whose `int index` is never negative.
unfoldable pub get_contact : KadId → RoutingTable → Outcome (Option Contact)
get_contact node_id t = do
  index ← kbucket_index node_id t
  b ← bucket_at index t
  done (KBucket.get_contact node_id b)

-- `TouchKBucket`, at a time of day `now`, cast to `unsigned int`
unfoldable pub touch_kbucket : ℕ → KadId → RoutingTable → Outcome RoutingTable
touch_kbucket now node_id t = do
  index ← kbucket_index node_id t
  b ← bucket_at index t
  done (set_bucket index (KBucket.set_last_accessed now b) t)

unfoldable pub remove_contact : KadId → RoutingTable → Outcome RoutingTable
remove_contact node_id t = do
  index ← kbucket_index node_id t
  b ← bucket_at index t
  done (set_bucket index (KBucket.remove_contact node_id b) t)

-- `KbucketSize` and `Size`
abbrev pub kbucket_size : RoutingTable → ℕ
kbucket_size t = length t.k_buckets

unfoldable pub total_size : List KBucket → ℕ
total_size [] = 0
total_size (b ∷ bs) = KBucket.size b + total_size bs

abbrev pub size : RoutingTable → ℕ
size t = total_size t.k_buckets

-- `GetContacts`, whose test lets the index of the end through; `none` where it returns false.
unfoldable pub get_contacts : ℕ → List Contact → RoutingTable → Outcome (Option (List Contact))
get_contacts index exclude t =
    if ltb (length t.k_buckets) index
    then done none
    else (bucket_at index t >>= λ b. done (some (KBucket.get_contacts t.k exclude [] b)))

-- `GetLastSeenContact`; `unset` is what a new contact holds in the field that no constructor sets.
unfoldable pub get_last_seen_contact : ℤ → ℕ → RoutingTable → Outcome Contact
get_last_seen_contact unset kbucket_index t =
    if ltb (length t.k_buckets) (kbucket_index + 1)
    then done (default_contact unset)
    else (bucket_at kbucket_index t >>= λ b. done (KBucket.last_seen_contact unset b))

-- `GetRefreshList`: the middle of the range of each bucket from `start` that was not accessed for
-- longer than `KRefreshTime`. The difference of the times is one of `unsigned int`.
unfoldable pub refresh_list : ℕ → Bool → List KBucket → List KadId
refresh_list now force [] = []
refresh_list now force (b ∷ bs) =
    if force || ltb 3600 (sub32 now b.last_accessed)
    then middle b.range_min b.range_max ∷ refresh_list now force bs
    else refresh_list now force bs

unfoldable pub get_refresh_list : ℕ → ℕ → Bool → List KadId → RoutingTable → List KadId
get_refresh_list now start force ids t = ids ++ refresh_list now force (drop start t.k_buckets)
