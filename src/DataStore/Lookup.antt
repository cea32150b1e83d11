-- ===== src/DataStore/Lookup.antt =====
-- What the methods of `DataStore` leave under each key and value, and what `LoadItem` makes of it.
use kadpeer.Prelude.{
  ℕ, ◌≡◌, refl, Bool, true, false, not, ◌&&◌, List, [], ◌∷◌, Option, none, some, arith,
  if◌then◌else◌,
}
use kadpeer.Prelude.Int.{ℤ}
use kadpeer.Order.{is_eq, pair_cmp}
use kadpeer.Text.{Text, text_eq, text_order, contains}
use kadpeer.Index.{IsIndex, find, remove_if}
use kadpeer.Index.Laws.{find-Above, find-insert, find-replace, replace_same}
use kadpeer.DataStore.{DataStore, KeyValueTuple, tuple_order, tuple_key, lookup, replace_tuple}
use kadpeer.DataStore.Operations.{store_item, stored_tuple, update_item, updated_tuple}
use kadpeer.DataStore.Queries.{load_item, loaded_values, is_loadable}
use kadpeer.DataStore.Invariant.{IsOrdered}

-- Whether (j, w) and (k, v) are one pair.
abbrev pub same_item : Text → Text → Text → Text → Bool
same_item j w k v = is_eq (tuple_order.cmp (j, w) (k, v))

-- What `LoadItem` makes of a tuple that may be missing.
abbrev pub loadable : ℕ → Option KeyValueTuple → Bool
loadable now none = false
loadable now (some t) = is_loadable now t

contains-loaded_values :
    (now : ℕ) (k w : Text) (ts : List KeyValueTuple)
    → IsIndex tuple_order tuple_key ts
    → contains w (loaded_values now (remove_if (λ t. not (text_eq k t.key)) ts))
      ≡ loadable now (find tuple_order tuple_key (k, w) ts)
unfolding contains loaded_values remove_if find pair_cmp
contains-loaded_values now k w [] v = refl
contains-loaded_values now k w (t ∷ ts) v = ground (
  arith,
  contains-loaded_values now k w ts v.1,
  find-Above tuple_order tuple_key (tuple_key t) ts v.0,
  text_order.cmp_eq k t.key,
  text_order.cmp_eq w t.value,
)

pub contains-load_item :
    (now : ℕ) (k w : Text) (s : DataStore)
    → IsOrdered s
    → contains w (load_item now k s).0 ≡ loadable now (lookup k w s)
unfolding load_item
contains-load_item now k w s v = contains-loaded_values now k w s.datastore v

module _ (s : DataStore) (v : IsOrdered s) where
  pub lookup-replace_tuple :
      (j w k x : Text) (t : KeyValueTuple)
      → tuple_key t ≡ (k, x)
      → lookup j w (replace_tuple k x t s).0 ≡ (if same_item j w k x then some t else lookup j w s)
  lookup-replace_tuple j w k x t e = ground (
    arith,
    replace_same tuple_order tuple_key (k, x) t s.datastore v e,
    find-replace tuple_order tuple_key (j, w) (k, x) t s.datastore v,
  )

  pub lookup-store_item :
      (now : ℕ) (j w k x : Text) (ttl : ℤ) (h : Bool)
      → lookup j w (store_item now k x ttl h s).0 ≡ (
          if (store_item now k x ttl h s).1 && same_item j w k x
          then some (stored_tuple now k x ttl h)
          else lookup j w s)
  unfolding store_item
  lookup-store_item now j w k x ttl h = ground (
    arith,
    lookup-replace_tuple j w k x (stored_tuple now k x ttl h) refl,
    find-insert tuple_order tuple_key (j, w) (stored_tuple now k x ttl h) s.datastore v,
    tuple_order.cmp_eq (j, w) (k, x),
  )

  -- A successful `UpdateItem` moves the tuple of the old value under the new one.
  pub lookup-update_item :
      (now : ℕ) (j w k o x : Text) (ttl : ℤ) (h : Bool)
      → (update_item now k o x ttl h s).1 ≡ true
      → lookup j w (update_item now k o x ttl h s).0 ≡ (
          if same_item j w k x
          then some (updated_tuple now k x ttl h)
          else if same_item j w k o
          then none
          else lookup j w s)
  unfolding update_item
  lookup-update_item now j w k o x ttl h e = ground (
    arith,
    find-replace tuple_order tuple_key (j, w) (k, o) (updated_tuple now k x ttl h) s.datastore v,
  )
