-- ===== src/KadService/Requests.antt =====
-- The requests that `KadService` (src/kademlia/kadservice.cpp) may get, one after the other. Each is
-- served into a new response, as the generated processor does.
use kadpeer.Prelude.{ℕ, ◌≡◌, List, [], ◌∷◌, Option, some, none, arith, Option-cases, inl, inr}
use kadpeer.Text.{text_eq}
use kadpeer.DataStore.Operations.{step, store_value, refresh, mark_deletion, update, refresh_item}
use kadpeer.DataStore.Invariant.{IsOrdered, step-IsOrdered}
use kadpeer.KadService.{
  Given, Service, PingRequest, FindRequest, StoreRequest, DownlistRequest, DeleteRequest,
  UpdateRequest, serialised, ◌>>=◌,
}
use kadpeer.KadService.Lookups.{
  ping, find_node, find_node_for, find_value, find_value_for, downlist,
}
use kadpeer.KadService.Values
use kadpeer.KadService.Values.{
  store, store_signed, conclude_store, delete, can_store_signed_value_hashable, joined,
}

pub data Request : Type 0 where
  ping_request : PingRequest → Request
  find_node_request : FindRequest → Request
  find_value_request : FindRequest → Request
  store_request : StoreRequest → Request
  downlist_request : DownlistRequest → Request
  delete_request : DeleteRequest → Request
  update_request : UpdateRequest → Request

module _ {N : Type 0} (g : Given N) where
  abbrev service_of {ℓ} : {R : Type ℓ} → Option (Service N × R) → Option (Service N)
  service_of none = none
  service_of (some (s, r)) = some s

  -- The service after a request, at the clock readings `now` and `later`
  unfoldable pub serve : ℕ → ℕ → Request → Service N → Option (Service N)
  serve now later (ping_request q) s =
      service_of (ping g q s (record { result = []; echo = []; node_id = [] }))
  serve now later (find_node_request q) s =
      service_of
        (find_node g q s (record { result = []; closest_nodes = []; values = []; node_id = [] }))
  serve now later (find_value_request q) s =
      service_of (
        find_value g now q s
          (record { result = []; closest_nodes = []; values = []; node_id = [] }))
  serve now later (store_request q) s = service_of (store g now later q s (record { result = [] }))
  serve now later (downlist_request q) s = service_of (downlist g q s (record { result = [] }))
  serve now later (delete_request q) s =
      service_of (delete g now q s (record { result = []; node_id = [] }))
  serve now later (update_request q) s =
      service_of (Values.update g now later q s (record { result = []; node_id = [] }))

  store_signed-IsOrdered :
      (now later : ℕ) (q : StoreRequest) (s : Service N)
      → IsOrdered s.datastore
      → IsOrdered
          (store_signed g now later q.key (serialised q.sig_value) q.ttl q.publish s.datastore).0
  unfolding store_signed step
  store_signed-IsOrdered now later q s v =
      let key = q.key in
      let value = serialised q.sig_value in
      let refreshed = step-IsOrdered s.datastore v (now, refresh key value) in
      let h = (can_store_signed_value_hashable g key value s.datastore).1 in
      let s' = (refresh_item now key value [] s.datastore).0 in
      let h' = (can_store_signed_value_hashable g key value s').1 in
      ground (
        arith,
        v,
        refreshed,
        step-IsOrdered s.datastore v (now, store_value key value q.ttl h),
        step-IsOrdered s' refreshed (later, store_value key value q.ttl h'),
      )

  serve-IsOrdered :
      (now later : ℕ) (r : Request) (s s' : Service N)
      → IsOrdered s.datastore
      → serve now later r s ≡ some s'
      → IsOrdered s'.datastore
  unfolding serve ping find_node find_node_for find_value find_value_for downlist store
      conclude_store delete Values.update step
  serve-IsOrdered now later (ping_request q) s s' v e = ground (arith, e, v)
  serve-IsOrdered now later (find_node_request q) s s' v e = ground (arith, e, v)
  serve-IsOrdered now later (find_value_request q) s s' v e = ground (arith, e, v)
  serve-IsOrdered now later (store_request q) s s' v e =
      ground (arith, e, v, store_signed-IsOrdered now later q s v)
  serve-IsOrdered now later (downlist_request q) s s' v e = ground (arith, e, v)
  serve-IsOrdered now later (delete_request q) s s' v e = ground (
    arith,
    e,
    v,
    step-IsOrdered s.datastore v
        (now, mark_deletion q.key (serialised q.value) (joined q.signed_request)),
  )
  serve-IsOrdered now later (update_request q) s s' v e = ground (
    arith,
    e,
    v,
    step-IsOrdered s.datastore v (
      later,
      update q.key (serialised q.old_value) (serialised q.new_value) q.ttl
          (text_eq q.key (g.hash_default (serialised q.new_value))),
    ),
  )

  -- A history of requests with their clock readings; `none` where one of them ends the process.
  unfoldable pub serve_all : List (ℕ × ℕ × Request) → Service N → Option (Service N)
  serve_all [] s = some s
  serve_all ((now, later, r) ∷ rs) s = serve now later r s >>= serve_all rs

  -- Over any history of requests the tuples of the store ascend by key and value, so that there is
  -- one tuple for a key and a value.
  pub serve_all-IsOrdered :
      (rs : List (ℕ × ℕ × Request)) (s s' : Service N)
      → IsOrdered s.datastore
      → serve_all rs s ≡ some s'
      → IsOrdered s'.datastore
  unfolding serve_all
  serve_all-IsOrdered [] s s' v e = let same : s ≡ s' = ground arith in rw (← same) v
  serve_all-IsOrdered ((now, later, r) ∷ rs) s s' v e = elim (Option-cases (serve now later r s)) [
    | inl m ↦ absurd (ground (arith, m))
    | inr (t, m) ↦
        serve_all-IsOrdered rs t s' (serve-IsOrdered now later r s t v m) (ground (arith, m, e))
  ]
