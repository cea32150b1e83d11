-- ===== src/DataStore/Removal.antt =====
-- What the methods of `DataStore` that erase tuples leave under each key and value.
use kadpeer.Prelude.{
  ℕ, ◌≡◌, refl, Bool, true, not, List, [], ◌∷◌, Option, none, some, arith, if◌then◌else◌, inl, inr,
  Option-cases,
}
use kadpeer.Order.{pair_cmp}
use kadpeer.Text.{Text, text_eq, text_order, is_empty}
use kadpeer.Index.{find, remove_if}
use kadpeer.Index.Laws.{find-key, find-remove_if, find-erase}
use kadpeer.DataStore.{DataStore, KeyValueTuple, tuple_order, tuple_key, lookup}
use kadpeer.DataStore.Operations.{delete_item, delete_key, delete_expired_values, is_expired, clear}
use kadpeer.DataStore.Invariant.{IsOrdered}
use kadpeer.DataStore.Lookup.{same_item}

-- A tuple that is kept unless a test holds of it.
abbrev pub unless : (KeyValueTuple → Bool) → Option KeyValueTuple → Option KeyValueTuple
unless p none = none
unless p (some t) = if p t then none else some t

module _ (s : DataStore) (v : IsOrdered s) where
  pub lookup-delete_item :
      (j w k x : Text)
      → lookup j w (delete_item k x s).0 ≡ (if same_item j w k x then none else lookup j w s)
  unfolding delete_item
  lookup-delete_item j w k x = ground (
    arith,
    find-erase tuple_order tuple_key (j, w) (k, x) s.datastore v,
    tuple_order.cmp_eq (j, w) (k, x),
  )

  lookup-remove_key :
      (j w k : Text)
      → find tuple_order tuple_key (j, w) (remove_if (λ t. text_eq k t.key) s.datastore)
        ≡ (if text_eq k j then none else lookup j w s)
  lookup-remove_key j w k = elim (Option-cases (lookup j w s)) [
    | inl e ↦ ground (
      arith,
      find-remove_if tuple_order tuple_key (j, w) (λ (t : KeyValueTuple). text_eq k t.key)
          s.datastore v,
    )
    | inr (t, e) ↦ ground (
      arith,
      find-remove_if tuple_order tuple_key (j, w) (λ (t : KeyValueTuple). text_eq k t.key)
          s.datastore v,
      find-key tuple_order tuple_key (j, w) t s.datastore e,
    )
  ]

  -- `DeleteExpiredValues` takes exactly the tuples that have expired.
  pub lookup-delete_expired_values :
      (now : ℕ) (j w : Text)
      → lookup j w (delete_expired_values now s) ≡ unless (is_expired now) (lookup j w s)
  unfolding delete_expired_values
  lookup-delete_expired_values now j w =
      ground (arith, find-remove_if tuple_order tuple_key (j, w) (is_expired now) s.datastore v)

lookup-empty_range :
    (k w : Text) (ts : List KeyValueTuple)
    → is_empty (remove_if (λ (t : KeyValueTuple). not (text_eq k t.key)) ts) ≡ true
    → find tuple_order tuple_key (k, w) ts ≡ none
unfolding remove_if find pair_cmp
lookup-empty_range k w [] h = refl
lookup-empty_range k w (t ∷ ts) h = ground (arith, lookup-empty_range k w ts)

-- `DeleteKey` takes every value of the key and nothing else.
pub lookup-delete_key :
    (j w k : Text) (s : DataStore)
    → IsOrdered s
    → lookup j w (delete_key k s).0 ≡ (if text_eq k j then none else lookup j w s)
unfolding delete_key
lookup-delete_key j w k s v =
    ground (
      arith,
      lookup-remove_key s v j w k,
      lookup-empty_range k w s.datastore,
      text_order.cmp_eq k j,
    )

pub lookup-clear : (j w : Text) (s : DataStore) → lookup j w (clear s) ≡ none
unfolding clear find
lookup-clear j w s = refl
