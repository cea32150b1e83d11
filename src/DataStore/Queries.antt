-- ===== src/DataStore/Queries.antt =====
-- The methods of `DataStore` (src/kademlia/datastore.cpp) that read the store.
use kadpeer.Prelude.{
  ℕ, Bool, not, ◌&&◌, ◌||◌, List, [], ◌∷◌, map, Option, none, some, leb, if◌then◌else◌,
}
use kadpeer.Prelude.Int.{ℤ, pos, ltb_ℤ}
use kadpeer.Text.{Text, text_order, is_empty}
use kadpeer.Word.{to_i32, sub32}
use kadpeer.Index.{insert}
use kadpeer.DataStore.{
  DataStore, KeyValueTuple, RefreshValue, DeleteStatus, not_deleted, is_not_deleted, is_forever,
  lookup, equal_range,
}

-- The keys, each once and in their order, as the `std::set` that the source fills holds them.
unfoldable pub collect_keys : List KeyValueTuple → List Text
collect_keys [] = []
collect_keys (t ∷ ts) = insert text_order (λ k. k) t.key (collect_keys ts)

unfoldable pub keys : DataStore → List Text
keys s = collect_keys s.datastore

-- `expire_time_ - now`, read as an `int32_t`.
abbrev pub ttl_remaining : ℕ → KeyValueTuple → ℤ
ttl_remaining now t = to_i32 (sub32 t.expire_time now)

-- The test by which `LoadItem` takes a value.
abbrev pub is_loadable : ℕ → KeyValueTuple → Bool
is_loadable now t =
    (ltb_ℤ (pos 0) (ttl_remaining now t) || is_forever t.ttl) && is_not_deleted t.del_status

unfoldable pub loaded_values : ℕ → List KeyValueTuple → List Text
loaded_values now [] = []
loaded_values now (t ∷ ts) =
    if is_loadable now t then t.value ∷ loaded_values now ts else loaded_values now ts

unfoldable pub load_item : ℕ → Text → DataStore → List Text × Bool
load_item now key s =
    let values = loaded_values now (equal_range key s) in (values, not (is_empty values))

unfoldable pub last_refresh_time : Text → Text → DataStore → ℕ
last_refresh_time key value s = elim (lookup key value s) [
  | none ↦ 0
  | some t ↦ t.last_refresh_time
]

unfoldable pub expire_time : Text → Text → DataStore → ℕ
expire_time key value s = elim (lookup key value s) [ none ↦ 0 | some t ↦ t.expire_time ]

unfoldable pub time_to_live : Text → Text → DataStore → ℤ
time_to_live key value s = elim (lookup key value s) [ none ↦ pos 0 | some t ↦ t.ttl ]

unfoldable pub load_key_appendable_attr : Text → DataStore → List (Text × Bool)
load_key_appendable_attr key s = map (λ t. (t.value, t.hashable)) (equal_range key s)

-- The index by refresh time. Tuples that were refreshed at the same time keep the order of their
-- keys here; the container keeps them as they were inserted.
unfoldable pub insert_by_refresh : KeyValueTuple → List KeyValueTuple → List KeyValueTuple
insert_by_refresh t [] = t ∷ []
insert_by_refresh t (u ∷ us) =
    if leb t.last_refresh_time u.last_refresh_time then t ∷ u ∷ us else u ∷ insert_by_refresh t us

unfoldable pub sort_by_refresh : List KeyValueTuple → List KeyValueTuple
sort_by_refresh [] = []
sort_by_refresh (t ∷ ts) = insert_by_refresh t (sort_by_refresh ts)

-- `refresh_value(key, value, ttl)` and `refresh_value(key, value, del_status)`
abbrev pub live_value : KeyValueTuple → ℤ → RefreshValue
live_value t ttl = record { key = t.key; value = t.value; ttl = ttl; del_status = not_deleted }

abbrev pub dead_value : KeyValueTuple → DeleteStatus → RefreshValue
dead_value t del_status = record {
  key = t.key;
  value = t.value;
  ttl = pos 0;
  del_status = del_status;
}

-- What one tuple adds to the result of `ValuesToRefresh`.
abbrev pub refresh_value : ℕ → KeyValueTuple → Option RefreshValue
refresh_value now t =
    if is_forever t.ttl && is_not_deleted t.del_status
    then some (live_value t t.ttl)
    else if ltb_ℤ (pos 0) (ttl_remaining now t) && is_not_deleted t.del_status
    then some (live_value t (ttl_remaining now t))
    else if not (is_not_deleted t.del_status)
    then some (dead_value t t.del_status)
    else none

-- The loop of `ValuesToRefresh` up to `upper_bound(time_limit)`.
unfoldable pub refresh_values : ℕ → ℕ → List KeyValueTuple → List RefreshValue
refresh_values now time_limit [] = []
refresh_values now time_limit (t ∷ ts) =
    let rest = refresh_values now time_limit ts in
    if leb t.last_refresh_time time_limit
    then elim (refresh_value now t) [ none ↦ rest | some r ↦ r ∷ rest ]
    else []

unfoldable pub values_to_refresh : ℕ → DataStore → List RefreshValue
values_to_refresh now s = refresh_values now (sub32 now s.t_refresh) (sort_by_refresh s.datastore)
