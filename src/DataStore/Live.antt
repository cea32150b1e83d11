-- ===== src/DataStore/Live.antt =====
-- Which values `LoadItem` of src/kademlia/datastore.cpp returns, and which ones `ValuesToRefresh`.
use mathlib.Core.List.{Mem, mem-filter_map}
use mathlib.Core.List.Perm
use mathlib.Core.Logic.{∥∥₁_map}
use kadpeer.Prelude.{
  ℕ, zero, suc, ◌+◌, ◌-◌, ◌%◌, ◌≡◌, ◌≢◌, ◌≤◌, ◌<◌, ◌↔◌, ◌⊎◌, inl, inr, refl, sym, ◌∙◌, ◌&&◌, ◌||◌,
  Bool, true, not, List, [], ◌∷◌, some, arith, get_elem?, Bool-cases, leb,
}
use mathlib.Core.Option.{some-injective}
use kadpeer.Prelude.Int.{ℤ, pos, negsuc, ltb_ℤ}
use kadpeer.Text.{Text, text_eq, text_eq_iff, contains}
use kadpeer.Index.{remove_if}
use kadpeer.DataStore.{
  DataStore, KeyValueTuple, RefreshValue, not_deleted, marked_for_deletion, deleted, DeleteStatus,
  is_not_deleted, is_forever,
}
use kadpeer.DataStore.Queries.{
  load_item, loaded_values, is_loadable, values_to_refresh, refresh_value,
}
use kadpeer.DataStore.Refresh.{due_value, values_to_refresh-perm}
use kadpeer.Word.{sub32, to_i32}

-- The seconds until the expiry time, around the clock of 32 bits.
abbrev pub seconds_left : ℕ → KeyValueTuple → ℕ
seconds_left now t = (t.expire_time + 4294967296 - now) % 4294967296

-- The value was not deleted, and it never expires or its expiry lies in the half of the clock ahead.
abbrev pub IsLive : ℕ → KeyValueTuple → Type 0
IsLive now t =
    (t.del_status ≡ not_deleted)
    × ((t.ttl ≡ negsuc 0) ⊎ (0 < seconds_left now t) × (seconds_left now t < 2147483648))

pub is_not_deleted_iff : (d : DeleteStatus) → (is_not_deleted d ≡ true) ↔ (d ≡ not_deleted)
is_not_deleted_iff not_deleted = ((λ h. refl), λ h. refl)
is_not_deleted_iff marked_for_deletion = ground arith
is_not_deleted_iff deleted = ground arith

pub is_forever_iff : (ttl : ℤ) → (is_forever ttl ≡ true) ↔ (ttl ≡ negsuc 0)
is_forever_iff (pos n) = ground arith
is_forever_iff (negsuc zero) = ((λ h. refl), λ h. refl)
is_forever_iff (negsuc (suc n)) = ground arith

ahead_iff : (u : ℕ) → (ltb_ℤ (pos 0) (to_i32 u) ≡ true) ↔ ((0 < u) × (u < 2147483648))
ahead_iff u = ground arith

is_loadable-IsLive : (now : ℕ) (t : KeyValueTuple) → (is_loadable now t ≡ true) ↔ IsLive now t
is_loadable-IsLive now t =
    ground
      (arith, is_not_deleted_iff t.del_status, is_forever_iff t.ttl, ahead_iff (seconds_left now t))

-- A tuple of the store under the key and the value that is live.
abbrev pub HasLive : ℕ → Text → Text → List KeyValueTuple → Type 0
HasLive now k w ts =
    (i : ℕ) × (t : KeyValueTuple) × (get_elem? ts i ≡ some t)
    × (t.key ≡ k)
    × (t.value ≡ w)
    × IsLive now t

abbrev under : Text → KeyValueTuple → Bool
under k t = not (text_eq k t.key)

abbrev takes : ℕ → Text → Text → KeyValueTuple → Bool
takes now k w t = text_eq k t.key && (is_loadable now t && text_eq w t.value)

takes_iff :
    (now : ℕ) (k w : Text) (t : KeyValueTuple)
    → (takes now k w t ≡ true) ↔ ((t.key ≡ k) × (t.value ≡ w) × IsLive now t)
takes_iff now k w t = (
  (λ h. (
    sym ((text_eq_iff k t.key).0 (ground arith)),
    sym ((text_eq_iff w t.value).0 (ground arith)),
    (is_loadable-IsLive now t).0 (ground arith),
  )),
  λ (e, f, l).
      rw
        (
          (text_eq_iff k t.key).1 (sym e),
          (text_eq_iff w t.value).1 (sym f),
          (is_loadable-IsLive now t).1 l,
        )
        refl,
)

contains-step :
    (now : ℕ) (k w : Text) (t : KeyValueTuple) (ts : List KeyValueTuple)
    → contains w (loaded_values now (remove_if (under k) (t ∷ ts)))
      ≡ (takes now k w t || contains w (loaded_values now (remove_if (under k) ts)))
unfolding contains loaded_values remove_if
contains-step now k w t ts = ground arith

later-HasLive :
    (now : ℕ) (k w : Text) (t : KeyValueTuple) (ts : List KeyValueTuple)
    → HasLive now k w ts
    → HasLive now k w (t ∷ ts)
later-HasLive now k w t ts (i, u, g, e, f, live) = (suc i, u, g, e, f, live)

loaded-HasLive :
    (now : ℕ) (k w : Text) (ts : List KeyValueTuple)
    → contains w (loaded_values now (remove_if (under k) ts)) ≡ true
    → HasLive now k w ts
unfolding contains loaded_values remove_if
loaded-HasLive now k w [] h = cc
loaded-HasLive now k w (t ∷ ts) h = elim (Bool-cases (takes now k w t)) [
  | inl yes_ ↦ let (e, f, live) = (takes_iff now k w t).0 yes_ in (0, t, refl, e, f, live)
  | inr no_ ↦
      later-HasLive now k w t ts
        (loaded-HasLive now k w ts (ground (arith, contains-step now k w t ts, h, no_)))
]

HasLive-loaded :
    (now i : ℕ) (k w : Text) (ts : List KeyValueTuple) (t : KeyValueTuple)
    → get_elem? ts i ≡ some t
    → takes now k w t ≡ true
    → contains w (loaded_values now (remove_if (under k) ts)) ≡ true
HasLive-loaded now i k w [] t g h = cc
HasLive-loaded now zero k w (u ∷ ts) t g h =
    contains-step now k w u ts ∙ rw (some-injective u t g, h) refl
HasLive-loaded now (suc i) k w (u ∷ ts) t g h =
    contains-step now k w u ts ∙ ground (arith, HasLive-loaded now i k w ts t g h)

-- `LoadItem` returns a value exactly where the store has a tuple of the key and the value that was
-- not deleted, and that never expires or whose expiry time lies ahead, by less than half of the clock.
pub load_item-HasLive :
    (now : ℕ) (k w : Text) (s : DataStore)
    → (contains w (load_item now k s).0 ≡ true) ↔ HasLive now k w s.datastore
unfolding load_item
load_item-HasLive now k w s = (
  loaded-HasLive now k w s.datastore,
  λ (i, t, g, e, f, live).
      HasLive-loaded now i k w s.datastore t g ((takes_iff now k w t).1 (e, f, live)),
)

-- What a tuple is refreshed with: its deletion state, and for a value that was not deleted the seconds
-- that are left, -1 where it never expires.
abbrev pub Refreshes : ℕ → KeyValueTuple → RefreshValue → Type 0
Refreshes now t r =
    (r.key ≡ t.key)
    × (r.value ≡ t.value)
    × (r.del_status ≡ t.del_status)
    × ((t.del_status ≢ not_deleted) × (r.ttl ≡ pos 0)
        ⊎ (t.del_status ≡ not_deleted) × (t.ttl ≡ negsuc 0) × (r.ttl ≡ negsuc 0)
        ⊎ (t.del_status ≡ not_deleted)
          × (t.ttl ≢ negsuc 0)
          × (0 < seconds_left now t)
          × (seconds_left now t < 2147483648)
          × (r.ttl ≡ pos (seconds_left now t)))

refresh_value-Refreshes :
    (now : ℕ) (t : KeyValueTuple) (r : RefreshValue)
    → (refresh_value now t ≡ some r) ↔ Refreshes now t r
refresh_value-Refreshes now t r = (
  λ e. ground (
    arith,
    is_not_deleted_iff t.del_status,
    is_forever_iff t.ttl,
    ahead_iff (seconds_left now t),
  ),
  λ h. ground (
    arith,
    is_not_deleted_iff t.del_status,
    is_forever_iff t.ttl,
    ahead_iff (seconds_left now t),
  ),
)

due_value-Refreshes :
    (now limit : ℕ) (t : KeyValueTuple) (r : RefreshValue)
    → (due_value now limit t ≡ some r) ↔ ((t.last_refresh_time ≤ limit) × Refreshes now t r)
due_value-Refreshes now limit t r = elim (Bool-cases (leb t.last_refresh_time limit)) [
  | inl due ↦
      let low : t.last_refresh_time ≤ limit = ground arith in
      rw due (
        λ e. (low, (refresh_value-Refreshes now t r).0 e),
        λ (l, h). (refresh_value-Refreshes now t r).1 h,
      )
  | inr late ↦ rw late (λ e. cc, λ (l, h). absurd (ground arith))
]

-- `ValuesToRefresh` returns exactly what those tuples are refreshed with that were last refreshed at or
-- before `now - t_refresh`, around the clock: a deleted one with its state, a live one with the seconds
-- that are left to it.
pub values_to_refresh-Refreshes :
    (now : ℕ) (s : DataStore) (r : RefreshValue)
    → Mem r (values_to_refresh now s)
      ↔ ∥ (
          (t : KeyValueTuple) × Mem t s.datastore
          × (t.last_refresh_time ≤ (now + 4294967296 - s.t_refresh) % 4294967296)
          × Refreshes now t r) ∥₁
values_to_refresh-Refreshes now s r =
    let limit = sub32 now s.t_refresh in
    let perm = Perm.mem_iff (values_to_refresh-perm now s) in
    let due = mem-filter_map (due_value now limit) s.datastore in
    (
      λ m. ∥∥₁_map (due.0 (perm.0 m)) λ (t, there, e).
          let (low, same) = (due_value-Refreshes now limit t r).0 e in (t, there, low, same),
      λ w. perm.1 (
          due.1 (
            ∥∥₁_map w λ (t, there, low, same).
              (t, there, (due_value-Refreshes now limit t r).1 (low, same)))),
    )
