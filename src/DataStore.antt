-- ===== src/DataStore.antt =====
-- src/kademlia/datastore.h and datastore.cpp: the values that a node keeps for the network, under a
-- key and a value. The container is its first index, the tuples in the order of (key, value).
-- The time of day is the argument `now`, the `uint32_t` that the source casts `timer.current()` to.
-- Each operation holds the mutex of the store, and is one step here.
pub mod Operations
pub mod Queries
pub mod Invariant
pub mod Lookup
pub mod Removal
pub mod Expiry
pub mod Lifecycle
pub mod Refresh
pub mod Live
pub mod Stored
use kadpeer.Prelude.{
  ℕ, ◌-◌, ◌≡◌, Bool, true, false, not, ◌&&◌, ◌||◌, List, [], ◌∷◌, map, Option, none, some, ltb, leb,
  if◌then◌else◌,
}
use kadpeer.Prelude.Int.{ℤ, pos, negsuc, ltb_ℤ}
use kadpeer.Order.{Order, pair_order}
use kadpeer.Text.{Text, text_order, text_eq, is_empty}
use kadpeer.Word.{to_u32, to_i32, add32, sub32}
use kadpeer.Index.{remove_if, find, insert, replace, is_some, has_key}

pub data DeleteStatus : Type 0 where
  not_deleted marked_for_deletion deleted : DeleteStatus

pub record RefreshValue : Type 0 where
  pub key : Text
  pub value : Text
  pub ttl : ℤ
  pub del_status : DeleteStatus

pub record KeyValueTuple : Type 0 where
  pub key : Text
  pub value : Text
  pub ser_delete_req : Text
  pub last_refresh_time : ℕ
  pub expire_time : ℕ
  pub ttl : ℤ
  pub hashable : Bool
  pub del_status : DeleteStatus

abbrev pub is_not_deleted : DeleteStatus → Bool
is_not_deleted not_deleted = true
is_not_deleted _ = false

abbrev pub is_marked : DeleteStatus → Bool
is_marked marked_for_deletion = true
is_marked _ = false

-- The ttl of a value that does not expire.
abbrev pub is_forever : ℤ → Bool
is_forever (pos n) = false
is_forever (negsuc n) = ltb n 1

abbrev pub is_zero : ℤ → Bool
is_zero (pos n) = ltb n 1
is_zero (negsuc n) = false

-- `key_value_tuple(key, value, last_refresh_time, expire_time, ttl, hashable)`
abbrev pub published_tuple : Text → Text → ℕ → ℕ → ℤ → Bool → KeyValueTuple
published_tuple key value last_refresh_time expire_time ttl hashable = record {
  key = key;
  value = value;
  ser_delete_req = [];
  last_refresh_time = last_refresh_time;
  expire_time = if ltb_ℤ ttl (pos 0) then 0 else expire_time;
  ttl = ttl;
  hashable = hashable;
  del_status = not_deleted;
}

-- `key_value_tuple(key, value, last_refresh_time)`
abbrev pub plain_tuple : Text → Text → ℕ → KeyValueTuple
plain_tuple key value last_refresh_time = record {
  key = key;
  value = value;
  ser_delete_req = [];
  last_refresh_time = last_refresh_time;
  expire_time = 0;
  ttl = pos 0;
  hashable = true;
  del_status = not_deleted;
}

abbrev pub tuple_order : Order (Text × Text)
tuple_order = pair_order text_order text_order

abbrev pub tuple_key : KeyValueTuple → Text × Text
tuple_key t = (t.key, t.value)

pub record DataStore : Type 0 where
  pub datastore : List KeyValueTuple
  pub t_refresh : ℕ

unfoldable pub init : ℕ → DataStore
init t_refresh = record { datastore = []; t_refresh = t_refresh }

-- `datastore_.find(boost::make_tuple(key, value))`
abbrev pub lookup : Text → Text → DataStore → Option KeyValueTuple
lookup key value s = find tuple_order tuple_key (key, value) s.datastore

abbrev pub insert_tuple : KeyValueTuple → List KeyValueTuple → List KeyValueTuple
insert_tuple = insert tuple_order tuple_key

-- `datastore_.replace(it, tuple)`, with `it` at the tuple of (key, value).
abbrev pub replace_tuple : Text → Text → KeyValueTuple → DataStore → DataStore × Bool
replace_tuple key value t s =
    let (ts, done) = replace tuple_order tuple_key (key, value) t s.datastore in
    (record s { datastore = ts }, done)

-- `datastore_.equal_range(boost::make_tuple(key))`
abbrev pub equal_range : Text → DataStore → List KeyValueTuple
equal_range key s = remove_if (λ t. not (text_eq key t.key)) s.datastore
