-- ===== src/Tests/Stores.antt =====
-- The theorems on `DataStore` at concrete stores.
use mathlib.Core.List.{Mem}
use kadpeer.Prelude.{
  ℕ, ◌+◌, ◌-◌, ◌%◌, ◌≤◌, ◌≢◌, ◌↔◌, some, if◌then◌else◌, ◌≡◌, refl, true, false, List, [], ◌∷◌,
  arith, ltb,
}
use kadpeer.Prelude.Int.{pos, negsuc}
use kadpeer.Text.{Text, contains}
use kadpeer.Order.{pair_cmp, list_cmp}
use kadpeer.Index.{find, insert, replace, remove_if}
use kadpeer.DataStore.{DataStore, KeyValueTuple, RefreshValue, not_deleted, init, lookup}
use kadpeer.DataStore.Operations.{
  Command, store_value, delete_expired, refresh, run, step, store_item, mark_for_deletion,
  delete_expired_values,
}
use kadpeer.DataStore.Queries.{load_item, values_to_refresh}
use kadpeer.DataStore.Invariant.{IsOrdered, run-init-IsOrdered}
use kadpeer.DataStore.Live.{HasLive, load_item-HasLive, Refreshes, values_to_refresh-Refreshes}
use kadpeer.DataStore.Stored.{IsProtected, store_item-IsProtected}
use kadpeer.DataStore.Expiry.{contains-load_item-store_item, load_item-delete_expired_values}
use kadpeer.DataStore.Lifecycle.{Follows, run-Follows, load_item-mark_for_deletion}

abbrev key : Text
key = 107 ∷ []

abbrev one : Text
one = 49 ∷ []

abbrev two : Text
two = 50 ∷ []

-- A value for an hour and one for ever, stored at the second 1000.
abbrev history : List (ℕ × Command)
history =
    (1000, store_value key one (pos 3600) true) ∷ (1000, store_value key two (negsuc 0) true) ∷ []

abbrev store : DataStore
store = run history (init 100)

load_item-HasLive_example :
    (contains one (load_item 2000 key store).0 ≡ true) ↔ HasLive 2000 key one store.datastore
load_item-HasLive_example = load_item-HasLive 2000 key one store

-- The store with the first value only.
abbrev first : List (ℕ × Command)
first = (1000, store_value key one (pos 3600) true) ∷ []

abbrev single : DataStore
single = run first (init 100)

abbrev single-IsOrdered : IsOrdered single
single-IsOrdered = run-init-IsOrdered first 100

contains-load_item-store_item_example :
    contains two (load_item 2030 key (store_item 2000 key two (pos 60) true single).0).0
    ≡ ltb 2030 (2000 + 60)
unfolding run step init store_item find insert pair_cmp list_cmp
contains-load_item-store_item_example =
    contains-load_item-store_item single single-IsOrdered 2000 key two true 2030 60 refl
      (omega arith) (omega arith) (omega arith) (omega arith) (omega arith)

run-Follows_example :
    Follows
      (lookup key one single)
      (lookup key one (run ((2000, refresh key one) ∷ (9000, delete_expired) ∷ []) single))
run-Follows_example =
    run-Follows key one ((2000, refresh key one) ∷ (9000, delete_expired) ∷ []) single
      single-IsOrdered refl

load_item-mark_for_deletion_example :
    contains one
      (load_item 3000 key
        (run ((2000, refresh key one) ∷ []) (mark_for_deletion key one two single).0)).0
    ≡ false
unfolding run step init store_item mark_for_deletion find insert pair_cmp list_cmp replace remove_if
load_item-mark_for_deletion_example =
    load_item-mark_for_deletion 3000 key one two ((2000, refresh key one) ∷ []) single
      single-IsOrdered refl refl

-- The first value, with the seconds that are left.
abbrev left_of_one : RefreshValue
left_of_one = record { key = key; value = one; ttl = pos 600; del_status = not_deleted }

values_to_refresh-Refreshes_example :
    Mem left_of_one (values_to_refresh 4000 store)
    ↔ ∥ (
        (t : KeyValueTuple) × Mem t store.datastore
        × (t.last_refresh_time ≤ (4000 + 4294967296 - store.t_refresh) % 4294967296)
        × Refreshes 4000 t left_of_one) ∥₁
values_to_refresh-Refreshes_example = values_to_refresh-Refreshes 4000 store left_of_one

nonempty : (c : ℕ) (t : Text) → c ∷ t ≢ []
nonempty c t = ground arith

-- After the value was marked, a new one that expires earlier is refused.
abbrev marked : DataStore
marked = (mark_for_deletion key one two single).0

marked-IsOrdered : IsOrdered marked
unfolding run step init store_item mark_for_deletion find insert pair_cmp list_cmp replace remove_if
marked-IsOrdered = single-IsOrdered

store_item-IsProtected_example :
    let (s', done) = store_item 2000 key one (pos 60) true marked in
    ((done ≡ false) ↔ IsProtected 2000 (pos 60) (lookup key one marked))
    × (lookup key one s' ≡ (
        if done
        then some (record {
          key = key;
          value = one;
          ser_delete_req = [];
          last_refresh_time = 2000;
          expire_time = 2060;
          ttl = pos 60;
          hashable = true;
          del_status = not_deleted;
        })
        else lookup key one marked))
store_item-IsProtected_example =
    store_item-IsProtected 2000 key one (pos 60) true marked marked-IsOrdered (nonempty 107 [])
      (nonempty 49 []) (ground arith)

load_item-delete_expired_values_example :
    load_item 9000 key (delete_expired_values 9000 single) ≡ load_item 9000 key single
unfolding run step init store_item find insert pair_cmp list_cmp
load_item-delete_expired_values_example =
    load_item-delete_expired_values 9000 key single
      (((λ e. cc), (λ h. omega arith), omega arith), tt)
