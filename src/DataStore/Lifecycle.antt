-- ===== src/DataStore/Lifecycle.antt =====
-- The deletion states of a tuple of `DataStore`: NOT_DELETED, MARKED_FOR_DELETION, DELETED. They are
-- passed in this order only, until `StoreItem` or `UpdateItem` writes the pair anew.
use kadpeer.Prelude.{
  ℕ, ◌≡◌, ◌≤◌, refl, Bool, true, false, not, ◌&&◌, List, [], ◌∷◌, Option, none, some, arith, inl,
  inr, Option-cases, Bool-cases, ◌∙◌,
}
use kadpeer.Prelude.Int.{ℤ}
use kadpeer.Text.{Text, contains}
use kadpeer.Index.{replace}
use kadpeer.DataStore.{
  DataStore, KeyValueTuple, DeleteStatus, not_deleted, marked_for_deletion, deleted, is_not_deleted,
  tuple_order, lookup,
}
use kadpeer.DataStore.Operations.{
  Command, store_value, delete_value, delete_values, delete_expired, clear_all, refresh,
  mark_deletion, mark_deleted, update, step, run, refresh_item, mark_for_deletion, mark_as_deleted,
  update_item, refreshed_tuple, marked_tuple, deleted_tuple,
}
use kadpeer.DataStore.Queries.{load_item}
use kadpeer.DataStore.Invariant.{IsOrdered, step-IsOrdered, run-IsOrdered}
use kadpeer.DataStore.Lookup.{
  same_item, loadable, lookup-store_item, lookup-update_item, lookup-replace_tuple,
  contains-load_item,
}
use kadpeer.DataStore.Removal.{
  lookup-delete_item, lookup-delete_key, lookup-delete_expired_values, lookup-clear,
}

abbrev pub rank : DeleteStatus → ℕ
rank not_deleted = 0
rank marked_for_deletion = 1
rank deleted = 2

-- How a pair may change without being written anew: it may go, and its deletion state may advance.
abbrev pub Follows : Option KeyValueTuple → Option KeyValueTuple → Type 0
Follows r none = Unit {0}
Follows none (some u) = ⊥
Follows (some t) (some u) = (rank t.del_status ≤ rank u.del_status) × (u.ttl ≡ t.ttl)

Follows-refl : (r : Option KeyValueTuple) → Follows r r
Follows-refl none = tt
Follows-refl (some t) = (omega arith, refl)

Follows-trans : (p q r : Option KeyValueTuple) → Follows p q → Follows q r → Follows p r
Follows-trans p q none a b = tt
Follows-trans none (some u) (some w) a b = a
Follows-trans p none (some w) a b = absurd b
Follows-trans (some t) (some u) (some w) a b = ground arith

-- The call does not write the pair (k, v) anew.
abbrev pub spares : Text → Text → Command → Bool
spares k v (store_value j w ttl h) = not (same_item k v j w)
spares k v (update j o w ttl h) = not (same_item k v j w)
spares k v _ = true

module _ (s : DataStore) (i : IsOrdered s) (k v : Text) where
  lookup-update_failed :
      (now : ℕ) (j o w : Text) (ttl : ℤ) (h : Bool)
      → (update_item now j o w ttl h s).1 ≡ false
      → lookup k v (update_item now j o w ttl h s).0 ≡ lookup k v s
  unfolding update_item replace
  lookup-update_failed now j o w ttl h e = ground arith

  refresh-Follows :
      (now : ℕ) (j w : Text) → Follows (lookup k v s) (lookup k v (refresh_item now j w [] s).0)
  unfolding refresh_item
  refresh-Follows now j w = elim (Option-cases (lookup j w s)) [
    | inl e ↦ ground (arith, Follows-refl (lookup k v s))
    | inr (t, e) ↦ ground (
      arith,
      lookup-replace_tuple s i k v j w (refreshed_tuple now j w t) refl,
      tuple_order.cmp_eq (k, v) (j, w),
      Follows-refl (lookup k v s),
    )
  ]

  mark_for_deletion-Follows :
      (j w r : Text) → Follows (lookup k v s) (lookup k v (mark_for_deletion j w r s).0)
  unfolding mark_for_deletion
  mark_for_deletion-Follows j w r = elim (Option-cases (lookup j w s)) [
    | inl e ↦ ground (arith, Follows-refl (lookup k v s))
    | inr (t, e) ↦ ground (
      arith,
      lookup-replace_tuple s i k v j w (marked_tuple j w r t) refl,
      tuple_order.cmp_eq (k, v) (j, w),
      Follows-refl (lookup k v s),
    )
  ]

  mark_as_deleted-Follows :
      (j w : Text) → Follows (lookup k v s) (lookup k v (mark_as_deleted j w s).0)
  unfolding mark_as_deleted
  mark_as_deleted-Follows j w = elim (Option-cases (lookup j w s)) [
    | inl e ↦ ground (arith, Follows-refl (lookup k v s))
    | inr (t, e) ↦ ground (
      arith,
      lookup-replace_tuple s i k v j w (deleted_tuple j w t) refl,
      tuple_order.cmp_eq (k, v) (j, w),
      Follows-refl (lookup k v s),
    )
  ]

  -- No call but a `StoreItem` or an `UpdateItem` of the pair itself turns its state back or changes
  -- its ttl.
  step-Follows :
      (now : ℕ) (c : Command)
      → spares k v c ≡ true
      → Follows (lookup k v s) (lookup k v (step (now, c) s))
  unfolding step
  step-Follows now (store_value j w ttl h) p =
      ground (arith, lookup-store_item s i now k v j w ttl h, Follows-refl (lookup k v s))
  step-Follows now (delete_value j w) p =
      ground (arith, lookup-delete_item s i k v j w, Follows-refl (lookup k v s))
  step-Follows now (delete_values j) p =
      ground (arith, lookup-delete_key k v j s i, Follows-refl (lookup k v s))
  step-Follows now delete_expired p =
      ground (arith, lookup-delete_expired_values s i now k v, Follows-refl (lookup k v s))
  step-Follows now clear_all p = rw (lookup-clear k v s) tt
  step-Follows now (refresh j w) p = refresh-Follows now j w
  step-Follows now (mark_deletion j w r) p = mark_for_deletion-Follows j w r
  step-Follows now (mark_deleted j w) p = mark_as_deleted-Follows j w
  step-Follows now (update j o w ttl h) p = elim (Bool-cases (update_item now j o w ttl h s).1) [
    | inl e ↦
        ground (arith, lookup-update_item s i now k v j o w ttl h e, Follows-refl (lookup k v s))
    | inr e ↦ ground (arith, lookup-update_failed now j o w ttl h e, Follows-refl (lookup k v s))
  ]

-- Every call of a history spares the pair.
abbrev pub all_spare : Text → Text → List (ℕ × Command) → Bool
all_spare k v [] = true
all_spare k v ((now, c) ∷ cs) = spares k v c && all_spare k v cs

-- Over any history that does not write a pair anew its deletion state only advances, and its ttl
-- stays.
pub run-Follows :
    (k v : Text) (cs : List (ℕ × Command)) (s : DataStore)
    → IsOrdered s
    → all_spare k v cs ≡ true
    → Follows (lookup k v s) (lookup k v (run cs s))
unfolding run
run-Follows k v [] s i p = Follows-refl (lookup k v s)
run-Follows k v ((now, c) ∷ cs) s i p =
    Follows-trans (lookup k v s) (lookup k v (step (now, c) s)) _
      (step-Follows s i k v now c (ground arith))
      (run-Follows k v cs (step (now, c) s) (step-IsOrdered s i (now, c)) (ground arith))

mark_for_deletion-IsOrdered :
    (k v r : Text) (s : DataStore) → IsOrdered s → IsOrdered (mark_for_deletion k v r s).0
unfolding step
mark_for_deletion-IsOrdered k v r s i = step-IsOrdered s i (0, mark_deletion k v r)

abbrev is_dead : Option KeyValueTuple → Bool
is_dead none = true
is_dead (some t) = not (is_not_deleted t.del_status)

Follows-is_dead : (p q : Option KeyValueTuple) → Follows p q → is_dead p ≡ true → is_dead q ≡ true
Follows-is_dead p none f d = refl
Follows-is_dead none (some u) f d = absurd f
Follows-is_dead (some t) (some u) f d = ground arith

is_dead-mark_for_deletion :
    (s : DataStore) (i : IsOrdered s) (k v r : Text)
    → (mark_for_deletion k v r s).1 ≡ true
    → is_dead (lookup k v (mark_for_deletion k v r s).0) ≡ true
unfolding mark_for_deletion
is_dead-mark_for_deletion s i k v r e = elim (Option-cases (lookup k v s)) [
  | inl m ↦ ground arith
  | inr (t, m) ↦ ground (
    arith,
    lookup-replace_tuple s i k v k v (marked_tuple k v r t) refl,
    tuple_order.cmp_refl (k, v),
  )
]

loadable_dead : (now : ℕ) (r : Option KeyValueTuple) → is_dead r ≡ true → loadable now r ≡ false
loadable_dead now none d = refl
loadable_dead now (some t) d = ground arith

-- A value that `MarkForDeletion` accepted is not loaded at any later time, unless it is stored or
-- updated anew.
pub load_item-mark_for_deletion :
    (later : ℕ) (k v r : Text) (cs : List (ℕ × Command)) (s : DataStore)
    → IsOrdered s
    → (mark_for_deletion k v r s).1 ≡ true
    → all_spare k v cs ≡ true
    → contains v (load_item later k (run cs (mark_for_deletion k v r s).0)).0 ≡ false
load_item-mark_for_deletion later k v r cs s i e p =
    let s' = (mark_for_deletion k v r s).0 in
    let i' : IsOrdered s' = mark_for_deletion-IsOrdered k v r s i in
    contains-load_item later k v (run cs s') (run-IsOrdered cs s' i')
    ∙ loadable_dead later (lookup k v (run cs s')) (
        Follows-is_dead (lookup k v s') (lookup k v (run cs s')) (run-Follows k v cs s' i' p)
          (is_dead-mark_for_deletion s i k v r e))
