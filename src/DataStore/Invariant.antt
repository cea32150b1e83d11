-- ===== src/DataStore/Invariant.antt =====
-- The order of the container of `DataStore`: the tuples ascend by (key, value), so that there is one
-- tuple for a key and a value, after any history of calls.
use kadpeer.Prelude.{ℕ, List, [], ◌∷◌, arith}
use kadpeer.Index.{IsIndex, has_key}
use kadpeer.Index.Laws.{insert-IsIndex, remove_if-IsIndex, replace-IsIndex}
use kadpeer.Text.{Text, text_eq}
use kadpeer.DataStore.{DataStore, KeyValueTuple, tuple_order, tuple_key, init, replace_tuple}
use kadpeer.DataStore.Operations.{
  Command, store_value, delete_value, delete_values, delete_expired, clear_all, refresh,
  mark_deletion, mark_deleted, update, step, run, store_item, delete_item, delete_key, stored_tuple,
  delete_expired_values, clear, refresh_item, mark_for_deletion, mark_as_deleted, update_item,
}

abbrev pub IsOrdered : DataStore → Type 0
IsOrdered s = IsIndex tuple_order tuple_key s.datastore

module _ (s : DataStore) (v : IsOrdered s) where
  replace_tuple-IsOrdered :
      (key value : Text) (t : KeyValueTuple) → IsOrdered (replace_tuple key value t s).0
  replace_tuple-IsOrdered key value t =
      replace-IsIndex tuple_order tuple_key (key, value) t s.datastore v

  -- Every call keeps the container in order.
  pub step-IsOrdered : (c : ℕ × Command) → IsOrdered (step c s)
  unfolding step store_item delete_item delete_key delete_expired_values clear refresh_item
      mark_for_deletion mark_as_deleted update_item
  step-IsOrdered (now, store_value k w ttl h) = grind (
    arith,
    insert-IsIndex tuple_order tuple_key (stored_tuple now k w ttl h) s.datastore v,
    replace_tuple-IsOrdered k w (stored_tuple now k w ttl h),
  )
  step-IsOrdered (now, delete_value k w) = grind (
    arith,
    remove_if-IsIndex tuple_order tuple_key (has_key tuple_order tuple_key (k, w)) s.datastore v,
  )
  step-IsOrdered (now, delete_values k) = ground (
    arith,
    remove_if-IsIndex tuple_order tuple_key (λ (t : KeyValueTuple). text_eq k t.key) s.datastore v,
  )
  step-IsOrdered (now, delete_expired) = remove_if-IsIndex tuple_order tuple_key _ s.datastore v
  step-IsOrdered (now, clear_all) = tt
  step-IsOrdered (now, refresh k w) = grind (arith, replace_tuple-IsOrdered)
  step-IsOrdered (now, mark_deletion k w r) = grind (arith, replace_tuple-IsOrdered)
  step-IsOrdered (now, mark_deleted k w) = grind (arith, replace_tuple-IsOrdered)
  step-IsOrdered (now, update k w x ttl h) = grind (arith, replace_tuple-IsOrdered)

pub run-IsOrdered : (cs : List (ℕ × Command)) (s : DataStore) → IsOrdered s → IsOrdered (run cs s)
unfolding run
run-IsOrdered [] s v = v
run-IsOrdered (c ∷ cs) s v = run-IsOrdered cs (step c s) (step-IsOrdered s v c)

-- After any history of calls the container of a new store is in order.
pub run-init-IsOrdered :
    (cs : List (ℕ × Command)) (t_refresh : ℕ) → IsOrdered (run cs (init t_refresh))
unfolding init
run-init-IsOrdered cs t_refresh = run-IsOrdered cs _ tt
