-- ===== src/DataStore/Operations.antt =====
-- The methods of `DataStore` (src/kademlia/datastore.cpp) that change the store. Each returns the
-- store after the call and the result of the method.
use kadpeer.Prelude.{
  ℕ, Bool, true, false, not, ◌&&◌, ◌||◌, List, [], ◌∷◌, none, some, ltb, if◌then◌else◌,
}
use kadpeer.Prelude.Int.{ℤ}
use kadpeer.Text.{Text, text_eq, is_empty}
use kadpeer.Word.{to_u32, add32}
use kadpeer.Index.{remove_if, has_key}
use kadpeer.DataStore.{
  DataStore, KeyValueTuple, not_deleted, marked_for_deletion, deleted, is_not_deleted, is_marked,
  is_forever, is_zero, published_tuple, plain_tuple, tuple_order, tuple_key, lookup, insert_tuple,
  replace_tuple, equal_range,
}

-- The test of `StoreItem` on the tuple `old` that is in the way of `new`.
abbrev pub may_overwrite : KeyValueTuple → KeyValueTuple → Bool
may_overwrite old new =
    is_not_deleted old.del_status
    || (is_forever new.ttl || (ltb old.expire_time new.expire_time && not (is_forever old.ttl)))

-- The tuple that `StoreItem` writes.
abbrev pub stored_tuple : ℕ → Text → Text → ℤ → Bool → KeyValueTuple
stored_tuple now key value time_to_live hashable =
    published_tuple key value now (add32 (to_u32 time_to_live) now) time_to_live hashable

unfoldable pub store_item : ℕ → Text → Text → ℤ → Bool → DataStore → DataStore × Bool
store_item now key value time_to_live hashable s =
    let tuple =
      published_tuple key value now (add32 (to_u32 time_to_live) now) time_to_live hashable in
    if is_empty key || (is_empty value || is_zero time_to_live)
    then (s, false)
    else elim (lookup key value s) [
      | none ↦ (record s { datastore = insert_tuple tuple s.datastore }, true)
      | some old ↦
          if may_overwrite old tuple
          then ((replace_tuple key value tuple s).0, true)
          else (s, false)
    ]

unfoldable pub delete_item : Text → Text → DataStore → DataStore × Bool
delete_item key value s = elim (lookup key value s) [
  | none ↦ (s, false)
  | some t ↦ (
    record s { datastore = remove_if (has_key tuple_order tuple_key (key, value)) s.datastore },
    true,
  )
]

unfoldable pub delete_key : Text → DataStore → DataStore × Bool
delete_key key s =
    if is_empty (equal_range key s)
    then (s, false)
    else (record s { datastore = remove_if (λ t. text_eq key t.key) s.datastore }, true)

-- The tuples with 0 < expire_time < now, the range of the index by expiry from `upper_bound(0)` to
-- `lower_bound(now)`.
abbrev pub is_expired : ℕ → KeyValueTuple → Bool
is_expired now t = ltb 0 t.expire_time && ltb t.expire_time now

unfoldable pub delete_expired_values : ℕ → DataStore → DataStore
delete_expired_values now s = record s { datastore = remove_if (is_expired now) s.datastore }

unfoldable pub clear : DataStore → DataStore
clear s = record s { datastore = [] }

-- The tuple that `RefreshItem` writes over `old`.
abbrev pub refreshed_tuple : ℕ → Text → Text → KeyValueTuple → KeyValueTuple
refreshed_tuple now key value old = record (plain_tuple key value now) {
  ttl = old.ttl;
  expire_time = old.expire_time;
  hashable = old.hashable;
}

-- The request of a deletion is written to `str_delete_req`, which is the last result.
unfoldable pub refresh_item : ℕ → Text → Text → Text → DataStore → DataStore × Bool × Text
refresh_item now key value str_delete_req s = elim (lookup key value s) [
  | none ↦ (s, false, str_delete_req)
  | some old ↦
      let (s', done) = replace_tuple key value (refreshed_tuple now key value old) s in
      if is_not_deleted old.del_status
      then (s', done, str_delete_req)
      else (s, false, old.ser_delete_req)
]

-- The tuples that `MarkForDeletion` and `MarkAsDeleted` write over `old`.
abbrev pub marked_tuple : Text → Text → Text → KeyValueTuple → KeyValueTuple
marked_tuple key value ser_del_request old = record (plain_tuple key value 0) {
  ttl = old.ttl;
  expire_time = old.expire_time;
  hashable = old.hashable;
  last_refresh_time = old.last_refresh_time;
  ser_delete_req = ser_del_request;
  del_status = marked_for_deletion;
}

abbrev pub deleted_tuple : Text → Text → KeyValueTuple → KeyValueTuple
deleted_tuple key value old = record (marked_tuple key value old.ser_delete_req old) {
  del_status = deleted;
}

unfoldable pub mark_for_deletion : Text → Text → Text → DataStore → DataStore × Bool
mark_for_deletion key value ser_del_request s = elim (lookup key value s) [
  | none ↦ (s, false)
  | some old ↦
      if is_not_deleted old.del_status
      then replace_tuple key value (marked_tuple key value ser_del_request old) s
      else (s, true)
]

unfoldable pub mark_as_deleted : Text → Text → DataStore → DataStore × Bool
mark_as_deleted key value s = elim (lookup key value s) [
  | none ↦ (s, false)
  | some old ↦
      if is_marked old.del_status
      then replace_tuple key value (deleted_tuple key value old) s
      else (s, false)
]

-- The tuple that `UpdateItem` writes. Its expiry time is set also where the ttl is negative.
abbrev pub updated_tuple : ℕ → Text → Text → ℤ → Bool → KeyValueTuple
updated_tuple now key new_value time_to_live hashable = record (plain_tuple key new_value 0) {
  ttl = time_to_live;
  expire_time = add32 now (to_u32 time_to_live);
  last_refresh_time = now;
  del_status = not_deleted;
  hashable = hashable;
}

unfoldable pub update_item : ℕ → Text → Text → Text → ℤ → Bool → DataStore → DataStore × Bool
update_item now key old_value new_value time_to_live hashable s = elim (lookup key old_value s) [
  | none ↦ (s, false)
  | some old ↦
      if is_not_deleted old.del_status
      then replace_tuple key old_value (updated_tuple now key new_value time_to_live hashable) s
      else (s, false)
]

-- A call of a method that may change the store.
pub data Command : Type 0 where
  store_value : Text → Text → ℤ → Bool → Command
  delete_value : Text → Text → Command
  delete_values : Text → Command
  delete_expired : Command
  clear_all : Command
  refresh : Text → Text → Command
  mark_deletion : Text → Text → Text → Command
  mark_deleted : Text → Text → Command
  update : Text → Text → Text → ℤ → Bool → Command

unfoldable pub step : ℕ × Command → DataStore → DataStore
step (now, store_value k v ttl h) s = (store_item now k v ttl h s).0
step (now, delete_value k v) s = (delete_item k v s).0
step (now, delete_values k) s = (delete_key k s).0
step (now, delete_expired) s = delete_expired_values now s
step (now, clear_all) s = clear s
step (now, refresh k v) s = (refresh_item now k v [] s).0
step (now, mark_deletion k v r) s = (mark_for_deletion k v r s).0
step (now, mark_deleted k v) s = (mark_as_deleted k v s).0
step (now, update k v w ttl h) s = (update_item now k v w ttl h s).0

unfoldable pub run : List (ℕ × Command) → DataStore → DataStore
run [] s = s
run (c ∷ cs) s = run cs (step c s)
