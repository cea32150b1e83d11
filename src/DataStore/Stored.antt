-- ===== src/DataStore/Stored.antt =====
-- When `StoreItem` of src/kademlia/datastore.cpp overwrites, and what it leaves.
use kadpeer.Prelude.{
  ℕ, zero, suc, ◌+◌, ◌%◌, ◌≡◌, ◌≢◌, ◌≤◌, ◌↔◌, ◌⊎◌, refl, ◌∙◌, Bool, true, false, Option, [], ◌∷◌,
  some, none, arith, if◌then◌else◌,
}
use kadpeer.Prelude.Int.{ℤ, pos, negsuc}
use kadpeer.Text.{is_empty, Text}
use kadpeer.DataStore.{DataStore, KeyValueTuple, not_deleted, is_zero, lookup, tuple_order}
use kadpeer.DataStore.Operations.{store_item, stored_tuple, may_overwrite}
use kadpeer.DataStore.Lookup.{same_item, lookup-store_item}
use kadpeer.DataStore.Invariant.{IsOrdered}
use kadpeer.DataStore.Live.{is_not_deleted_iff, is_forever_iff}

-- The expiry time that `StoreItem` gives, 0 for a negative number of seconds.
abbrev pub new_expiry : ℕ → ℤ → ℕ
new_expiry now (pos n) = (n % 4294967296 + now) % 4294967296
new_expiry now (negsuc n) = 0

-- The tuple in the way was deleted or marked, the new value expires, and the old one expires no earlier
-- or never.
abbrev pub IsProtected : ℕ → ℤ → Option KeyValueTuple → Type 0
IsProtected now ttl none = ⊥
IsProtected now ttl (some t) =
    (t.del_status ≢ not_deleted)
    × (ttl ≢ negsuc 0)
    × ((new_expiry now ttl ≤ t.expire_time) ⊎ (t.ttl ≡ negsuc 0))

is_zero_iff : (ttl : ℤ) → (is_zero ttl ≡ true) ↔ (ttl ≡ pos 0)
is_zero_iff (pos zero) = ((λ h. refl), λ h. refl)
is_zero_iff (pos (suc n)) = ground arith
is_zero_iff (negsuc n) = ground arith

is_empty_iff : (t : Text) → (is_empty t ≡ true) ↔ (t ≡ [])
is_empty_iff [] = ((λ h. refl), λ h. refl)
is_empty_iff (c ∷ t) = ((λ h. cc), λ h. cc)

stored_tuple-expiry :
    (now : ℕ) (k w : Text) (ttl : ℤ) (h : Bool)
    → (stored_tuple now k w ttl h).expire_time ≡ new_expiry now ttl
stored_tuple-expiry now k w (pos n) h = ground arith
stored_tuple-expiry now k w (negsuc n) h = ground arith

may_overwrite-IsProtected :
    (now : ℕ) (k w : Text) (ttl : ℤ) (h : Bool) (t : KeyValueTuple)
    → (may_overwrite t (stored_tuple now k w ttl h) ≡ false) ↔ IsProtected now ttl (some t)
may_overwrite-IsProtected now k w ttl h t = ground (
  arith,
  stored_tuple-expiry now k w ttl h,
  is_not_deleted_iff t.del_status,
  is_forever_iff t.ttl,
  is_forever_iff ttl,
)

abbrev is_taken : ℕ → Text → Text → ℤ → Bool → Option KeyValueTuple → Bool
is_taken now k w ttl h none = true
is_taken now k w ttl h (some t) = may_overwrite t (stored_tuple now k w ttl h)

store_item-is_taken :
    (now : ℕ) (k w : Text) (ttl : ℤ) (h : Bool) (s : DataStore)
    → k ≢ []
    → w ≢ []
    → ttl ≢ pos 0
    → (store_item now k w ttl h s).1 ≡ is_taken now k w ttl h (lookup k w s)
unfolding store_item
store_item-is_taken now k w ttl h s some_key some_value some_time =
    ground (arith, is_empty_iff k, is_empty_iff w, is_zero_iff ttl)

is_taken-IsProtected :
    (now : ℕ) (k w : Text) (ttl : ℤ) (h : Bool) (o : Option KeyValueTuple)
    → (is_taken now k w ttl h o ≡ false) ↔ IsProtected now ttl o
is_taken-IsProtected now k w ttl h none = (λ e. cc, λ p. absurd p)
is_taken-IsProtected now k w ttl h (some t) = may_overwrite-IsProtected now k w ttl h t

same_item_refl : (k w : Text) → same_item k w k w ≡ true
same_item_refl k w = rw (tuple_order.cmp_refl (k, w)) refl

-- `StoreItem` of a key, a value and a number of seconds that are not empty fails exactly where the pair
-- is in the store, deleted or marked, and the new value expires, no later than the old one. Then the
-- pair stays as it was; else it has the new value, which is not deleted, with its expiry time.
pub store_item-IsProtected :
    (now : ℕ) (k w : Text) (ttl : ℤ) (h : Bool) (s : DataStore)
    → IsOrdered s
    → k ≢ []
    → w ≢ []
    → ttl ≢ pos 0
    → let (s', done) = store_item now k w ttl h s in
      ((done ≡ false) ↔ IsProtected now ttl (lookup k w s))
      × (lookup k w s' ≡ (
          if done
          then some (record {
            key = k;
            value = w;
            ser_delete_req = [];
            last_refresh_time = now;
            expire_time = new_expiry now ttl;
            ttl = ttl;
            hashable = h;
            del_status = not_deleted;
          })
          else lookup k w s))
store_item-IsProtected now k w ttl h s v some_key some_value some_time = (
  rw (store_item-is_taken now k w ttl h s some_key some_value some_time)
      (is_taken-IsProtected now k w ttl h (lookup k w s)),
  lookup-store_item s v now k w k w ttl h
      ∙ rw (same_item_refl k w, stored_tuple-expiry now k w ttl h) (ground arith),
)
