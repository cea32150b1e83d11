-- ===== src/DataStore/Expiry.antt =====
-- How long a value of `DataStore` can be loaded: the arithmetic on `uint32_t` times of `StoreItem`,
-- `UpdateItem`, `LoadItem` and `DeleteExpiredValues`.
use kadpeer.Prelude.{
  ℕ, suc, ◌+◌, ◌≡◌, ◌≤◌, ◌<◌, refl, Bool, true, false, not, List, [], ◌∷◌, none, some, arith, inl,
  inr, Bool-cases, ltb,
}
use kadpeer.Prelude.Int.{ℤ, pos, negsuc}
use kadpeer.Text.{Text, contains, text_eq}
use kadpeer.Word.{i32_limit, u32_mod}
use kadpeer.Index.{remove_if}
use kadpeer.DataStore.{DataStore, KeyValueTuple, is_forever, tuple_order, lookup}
use kadpeer.DataStore.Operations.{
  store_item, stored_tuple, delete_expired_values, is_expired, update_item, step, delete_expired,
  Command,
}
use kadpeer.DataStore.Queries.{load_item, loaded_values, is_loadable}
use kadpeer.DataStore.Invariant.{IsOrdered, step-IsOrdered}
use kadpeer.DataStore.Lookup.{contains-load_item, lookup-store_item, lookup-update_item}
use kadpeer.DataStore.Removal.{lookup-delete_expired_values}

store_item-IsOrdered :
    (now : ℕ) (k x : Text) (ttl : ℤ) (h : Bool) (s : DataStore)
    → IsOrdered s
    → IsOrdered (store_item now k x ttl h s).0
unfolding step
store_item-IsOrdered now k x ttl h s v = step-IsOrdered s v (now, Command.store_value k x ttl h)

pub update_item-IsOrdered :
    (now : ℕ) (k o x : Text) (ttl : ℤ) (h : Bool) (s : DataStore)
    → IsOrdered s
    → IsOrdered (update_item now k o x ttl h s).0
unfolding step
update_item-IsOrdered now k o x ttl h s v = step-IsOrdered s v (now, Command.update k o x ttl h)

delete_expired_values-IsOrdered :
    (now : ℕ) (s : DataStore) → IsOrdered s → IsOrdered (delete_expired_values now s)
unfolding step
delete_expired_values-IsOrdered now s v = step-IsOrdered s v (now, delete_expired)

-- A tuple that was stored for `n` seconds is live for `n` seconds.
is_loadable-stored_tuple :
    (now later n : ℕ) (k x : Text) (h : Bool)
    → n < i32_limit
    → now + n < u32_mod
    → now ≤ later
    → later < u32_mod
    → later ≤ now + n + i32_limit
    → is_loadable later (stored_tuple now k x (pos n) h) ≡ ltb later (now + n)
is_loadable-stored_tuple now later n k x h p a b c d = ground arith

module _ (s : DataStore) (v : IsOrdered s) (now : ℕ) (k x : Text) (h : Bool) where
  lookup-store_item_self :
      (ttl : ℤ)
      → (store_item now k x ttl h s).1 ≡ true
      → lookup k x (store_item now k x ttl h s).0 ≡ some (stored_tuple now k x ttl h)
  lookup-store_item_self ttl e =
      ground (arith, lookup-store_item s v now k x k x ttl h, tuple_order.cmp_refl (k, x))

  -- A value that `StoreItem` accepts for `n` seconds is among those that `LoadItem` returns exactly
  -- until these seconds have passed.
  pub contains-load_item-store_item :
      (later n : ℕ)
      → (store_item now k x (pos n) h s).1 ≡ true
      → n < i32_limit
      → now + n < u32_mod
      → now ≤ later
      → later < u32_mod
      → later ≤ now + n + i32_limit
      → contains x (load_item later k (store_item now k x (pos n) h s).0).0 ≡ ltb later (now + n)
  contains-load_item-store_item later n e p a b c d = ground (
    arith,
    contains-load_item later k x (store_item now k x (pos n) h s).0
        (store_item-IsOrdered now k x (pos n) h s v),
    lookup-store_item_self (pos n) e,
    is_loadable-stored_tuple now later n k x h p a b c d,
  )

  -- A value that is stored with the ttl -1 is loaded at any time, whatever was expired in between.
  pub contains-load_item-forever :
      (at later : ℕ)
      → (store_item now k x (negsuc 0) h s).1 ≡ true
      → contains x
          (load_item later k (delete_expired_values at (store_item now k x (negsuc 0) h s).0)).0
        ≡ true
  contains-load_item-forever at later e = ground (
    arith,
    contains-load_item later k x (delete_expired_values at (store_item now k x (negsuc 0) h s).0)
        (delete_expired_values-IsOrdered at _ (store_item-IsOrdered now k x (negsuc 0) h s v)),
    lookup-delete_expired_values (store_item now k x (negsuc 0) h s).0
        (store_item-IsOrdered now k x (negsuc 0) h s v) at k x,
    lookup-store_item_self (negsuc 0) e,
  )

  -- A value that is stored with a ttl below -1 is accepted and kept by every expiry, but until
  -- 2 ^ 31 seconds of the epoch `LoadItem` never returns it.
  pub negative_ttl :
      (at later n : ℕ)
      → (store_item now k x (negsuc (suc n)) h s).1 ≡ true
      → later ≤ i32_limit
      → let s' = delete_expired_values at (store_item now k x (negsuc (suc n)) h s).0 in
        (lookup k x s' ≡ some (stored_tuple now k x (negsuc (suc n)) h))
        × (contains x (load_item later k s').0 ≡ false)
  negative_ttl at later n e b =
      let kept =
        lookup-delete_expired_values (store_item now k x (negsuc (suc n)) h s).0
          (store_item-IsOrdered now k x (negsuc (suc n)) h s v) at k x in
      let found = lookup-store_item_self (negsuc (suc n)) e in
      (
        ground (arith, kept, found),
        ground (
          arith,
          kept,
          found,
          contains-load_item later k x
              (delete_expired_values at (store_item now k x (negsuc (suc n)) h s).0)
              (delete_expired_values-IsOrdered at _
                (store_item-IsOrdered now k x (negsuc (suc n)) h s v)),
        ),
      )

  -- A value that `UpdateItem` gives the ttl -1 is erased by the next expiry: its expiry time is the
  -- second before the update.
  pub update_item-forever_lost :
      (at : ℕ) (old : Text)
      → (update_item now k old x (negsuc 0) h s).1 ≡ true
      → 1 < now
      → now < u32_mod
      → now ≤ at
      → lookup k x (delete_expired_values at (update_item now k old x (negsuc 0) h s).0) ≡ none
  update_item-forever_lost at old e a b c = ground (
    arith,
    lookup-update_item s v now k x k old x (negsuc 0) h e,
    tuple_order.cmp_refl (k, x),
    lookup-delete_expired_values (update_item now k old x (negsuc 0) h s).0
        (update_item-IsOrdered now k old x (negsuc 0) h s v) at k x,
  )

-- A tuple whose times fit the time `now`: one that does not expire has no expiry time, and one that
-- does expired less than 2 ^ 31 seconds ago.
abbrev pub IsTimely : ℕ → KeyValueTuple → Type 0
IsTimely now t =
    (is_forever t.ttl ≡ true → t.expire_time ≡ 0)
    × (0 < t.expire_time → now ≤ t.expire_time + i32_limit)
    × (now < u32_mod)

abbrev pub AllTimely : ℕ → List KeyValueTuple → Type 0
AllTimely now [] = Unit {0}
AllTimely now (t ∷ ts) = IsTimely now t × AllTimely now ts

expired-not-loadable :
    (now : ℕ) (t : KeyValueTuple)
    → IsTimely now t
    → is_expired now t ≡ true
    → is_loadable now t ≡ false
expired-not-loadable now t h e = ground arith

loaded_values-remove_if :
    (now : ℕ) (p : KeyValueTuple → Bool) (ts : List KeyValueTuple)
    → AllTimely now ts
    → loaded_values now (remove_if p (remove_if (is_expired now) ts))
      ≡ loaded_values now (remove_if p ts)
unfolding loaded_values remove_if
loaded_values-remove_if now p [] h = refl
loaded_values-remove_if now p (t ∷ ts) h =
    let rest = loaded_values-remove_if now p ts h.1 in
    elim (Bool-cases (is_expired now t)) [
      | inl e ↦ elim (Bool-cases (p t)) [
        | inl d ↦ rw (e, d) rest
        | inr d ↦ rw (e, d, expired-not-loadable now t h.0 e) rest
      ]
      | inr e ↦ rw e (ground (arith, rest))
    ]

-- Over tuples whose times fit `now`, `DeleteExpiredValues` takes nothing that `LoadItem` returns then.
pub load_item-delete_expired_values :
    (now : ℕ) (k : Text) (s : DataStore)
    → AllTimely now s.datastore
    → load_item now k (delete_expired_values now s) ≡ load_item now k s
unfolding load_item delete_expired_values
load_item-delete_expired_values now k s h =
    rw (loaded_values-remove_if now (λ (t : KeyValueTuple). not (text_eq k t.key)) s.datastore h)
