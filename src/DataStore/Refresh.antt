-- ===== src/DataStore/Refresh.antt =====
-- `ValuesToRefresh` of `DataStore`: the walk over the index by refresh time, up to the limit, against
-- a plain selection of the tuples that are due.
use mathlib.Core.List.{filter_map, Perm}
use mathlib.Core.List.Perm
use kadpeer.Prelude.{
  ℕ, ◌≡◌, ◌≤◌, ◌<◌, refl, List, [], ◌∷◌, Option, none, arith, if◌then◌else◌, leb, Bool-cases, inl,
  inr,
}
use kadpeer.Word.{sub32}
use kadpeer.DataStore.{DataStore, KeyValueTuple, RefreshValue}
use kadpeer.DataStore.Queries.{
  refresh_value, refresh_values, values_to_refresh, insert_by_refresh, sort_by_refresh,
}

-- What a tuple adds if it was refreshed at or before the limit.
abbrev pub due_value : ℕ → ℕ → KeyValueTuple → Option RefreshValue
due_value now time_limit t =
    if leb t.last_refresh_time time_limit then refresh_value now t else none

abbrev NotBefore : ℕ → List KeyValueTuple → Type 0
NotBefore n [] = Unit {0}
NotBefore n (t ∷ ts) = (n ≤ t.last_refresh_time) × NotBefore n ts

-- Ascending by refresh time.
abbrev ByRefresh : List KeyValueTuple → Type 0
ByRefresh [] = Unit {0}
ByRefresh (t ∷ ts) = NotBefore t.last_refresh_time ts × ByRefresh ts

NotBefore-mono : (m n : ℕ) (ts : List KeyValueTuple) → m ≤ n → NotBefore n ts → NotBefore m ts
NotBefore-mono m n [] h b = tt
NotBefore-mono m n (t ∷ ts) h b = (omega arith, NotBefore-mono m n ts h b.1)

NotBefore-insert :
    (n : ℕ) (t : KeyValueTuple) (ts : List KeyValueTuple)
    → n ≤ t.last_refresh_time
    → NotBefore n ts
    → NotBefore n (insert_by_refresh t ts)
unfolding insert_by_refresh
NotBefore-insert n t [] h b = (h, tt)
NotBefore-insert n t (u ∷ us) h b = ground (arith, NotBefore-insert n t us h b.1)

insert-ByRefresh :
    (t : KeyValueTuple) (ts : List KeyValueTuple)
    → ByRefresh ts
    → ByRefresh (insert_by_refresh t ts)
unfolding insert_by_refresh
insert-ByRefresh t [] b = (tt, tt)
insert-ByRefresh t (u ∷ us) b = ground (
  arith,
  insert-ByRefresh t us b.1,
  NotBefore-insert u.last_refresh_time t us,
  NotBefore-mono t.last_refresh_time u.last_refresh_time us,
)

sort-ByRefresh : (ts : List KeyValueTuple) → ByRefresh (sort_by_refresh ts)
unfolding sort_by_refresh
sort-ByRefresh [] = tt
sort-ByRefresh (t ∷ ts) = insert-ByRefresh t (sort_by_refresh ts) (sort-ByRefresh ts)

insert_by_refresh-perm :
    (t : KeyValueTuple) (ts : List KeyValueTuple) → Perm (insert_by_refresh t ts) (t ∷ ts)
unfolding insert_by_refresh
insert_by_refresh-perm t [] = Perm.refl (t ∷ [])
insert_by_refresh-perm t (u ∷ us) =
    elim (Bool-cases (leb t.last_refresh_time u.last_refresh_time)) [
      | inl e ↦ rw e (Perm.refl (t ∷ u ∷ us))
      | inr e ↦ rw e (Perm.trans (Perm.cons u (insert_by_refresh-perm t us)) (Perm.swap t u us))
    ]

sort_by_refresh-perm : (ts : List KeyValueTuple) → Perm (sort_by_refresh ts) ts
unfolding sort_by_refresh
sort_by_refresh-perm [] = Perm.nil
sort_by_refresh-perm (t ∷ ts) =
    Perm.trans (insert_by_refresh-perm t (sort_by_refresh ts))
      (Perm.cons t (sort_by_refresh-perm ts))

filter_map-late :
    (now time_limit n : ℕ) (ts : List KeyValueTuple)
    → time_limit < n
    → NotBefore n ts
    → filter_map (due_value now time_limit) ts ≡ []
unfolding filter_map
filter_map-late now time_limit n [] h b = refl
filter_map-late now time_limit n (t ∷ ts) h b =
    ground (arith, filter_map-late now time_limit n ts h b.1)

refresh_values-filter_map :
    (now time_limit : ℕ) (ts : List KeyValueTuple)
    → ByRefresh ts
    → refresh_values now time_limit ts ≡ filter_map (due_value now time_limit) ts
unfolding refresh_values filter_map
refresh_values-filter_map now time_limit [] b = refl
refresh_values-filter_map now time_limit (t ∷ ts) b = ground (
  arith,
  refresh_values-filter_map now time_limit ts b.1,
  filter_map-late now time_limit t.last_refresh_time ts,
)

-- `ValuesToRefresh` returns, up to their order, what each tuple that was last refreshed at or before
-- the limit adds: nothing is missed by stopping at the bound of the index.
pub values_to_refresh-perm :
    (now : ℕ) (s : DataStore)
    → Perm
        (values_to_refresh now s)
        (filter_map (due_value now (sub32 now s.t_refresh)) s.datastore)
unfolding values_to_refresh
values_to_refresh-perm now s =
    rw
      (refresh_values-filter_map now (sub32 now s.t_refresh) (sort_by_refresh s.datastore)
        (sort-ByRefresh s.datastore))
      (Perm.filter_map (due_value now (sub32 now s.t_refresh)) (sort_by_refresh-perm s.datastore))
