-- ===== src/KadService/Gate.antt =====
-- What the handlers of `KadService` (src/kademlia/kadservice.cpp) refuse and what they leave alone.
use kadpeer.Prelude.{ℕ, ◌≡◌, refl, true, false, some, arith}
use kadpeer.Text.{contains, text_eq}
use kadpeer.Contact.{Contact}
use kadpeer.DataStore.Operations.{update_item}
use kadpeer.DataStore.Queries.{load_item}
use kadpeer.KadService.{
  Given, Service, PingRequest, PingResponse, FindRequest, FindResponse, StoreRequest, StoreResponse,
  DownlistRequest, DownlistResponse, DeleteRequest, UpdateRequest, KeyedResponse, serialised,
  rpc_result_failure, rpc_result_success, get_sender, with_contact,
}
use kadpeer.KadService.Lookups.{
  ping, find_node, find_value, find_value_for, find_node_for, downlist,
}
use kadpeer.KadService.Values.{store, delete, update, may_update}

module _ {N : Type 0} (g : Given N) (now later : ℕ) (s : Service N) where
  -- A node that has not joined the network answers `Ping`, `FindNode`, `FindValue`, `Downlist`,
  -- `Store`, `Delete` and `Update` with a failure, and keeps its state.
  pub not_joined :
      (p : PingRequest) (pr : PingResponse) (f : FindRequest) (fr : FindResponse)
      (l : DownlistRequest) (lr : DownlistResponse) (q : StoreRequest) (qr : StoreResponse)
      (d : DeleteRequest) (dr : KeyedResponse) (u : UpdateRequest) (ur : KeyedResponse)
      → s.node_joined ≡ false
      → (ping g p s pr ≡ some (s, record pr { result = rpc_result_failure }))
        × (find_node g f s fr ≡ some (s, record fr { result = rpc_result_failure }))
        × (find_value g now f s fr ≡ some (s, record fr { result = rpc_result_failure }))
        × (downlist g l s lr ≡ some (s, record lr { result = rpc_result_failure }))
        × (store g now later q s qr ≡ some (s, record qr { result = rpc_result_failure }))
        × (delete g now d s dr ≡ some (s, record dr { result = rpc_result_failure }))
        × (update g now later u s ur
            ≡ some (s, record ur { node_id = s.node_info.node_id; result = rpc_result_failure }))
  unfolding ping find_node find_value downlist store delete update
  not_joined p pr f fr l lr q qr d dr u ur h =
      (rw h refl, rw h refl, rw h refl, rw h refl, rw h refl, rw h refl, rw h refl)

  -- `Update` answers with a success only for a node that joined, an old value that the store returns
  -- and a new value with a valid signature.
  pub update_checked :
      (u : UpdateRequest) (r : KeyedResponse) (s' : Service N) (r' : KeyedResponse)
      → update g now later u s r ≡ some (s', r')
      → r'.result ≡ rpc_result_success
      → (s.node_joined ≡ true)
        × (contains (serialised u.old_value) (load_item now u.key s.datastore).0 ≡ true)
        × (g.check_sig u.new_value.value u.new_value.value_signature u.request.public_key ≡ true)
  unfolding update
  update_checked u r s' r' e h = ground arith

  -- `FindValue`, also where it goes on with `FindNode`, leaves the store as it is.
  pub find_value-datastore :
      (f : FindRequest) (r : FindResponse) (s' : Service N) (r' : FindResponse)
      → find_value g now f s r ≡ some (s', r')
      → s'.datastore ≡ s.datastore
  unfolding find_value find_value_for find_node find_node_for
  find_value-datastore f r s' r' e = ground arith

  -- `Update` answers with a success where its checks pass, the store takes the new value and the
  -- identifier of the sender is read.
  pub update_succeeds :
      (u : UpdateRequest) (r : KeyedResponse) (sender : Contact)
      → may_update g now u s ≡ true
      → (update_item later u.key
          (serialised u.old_value)
          (serialised u.new_value)
          u.ttl
          (text_eq u.key (g.hash_default (serialised u.new_value)))
          s.datastore).1
        ≡ true
      → get_sender g u.sender_info ≡ some (sender, true)
      → (s' : Service N) × (r' : KeyedResponse) × (update g now later u s r ≡ some (s', r'))
        × (r'.result ≡ rpc_result_success)
  unfolding update
  update_succeeds u r sender may new known = (
    with_contact g sender (record s {
      datastore =
          (update_item later u.key (serialised u.old_value) (serialised u.new_value) u.ttl
            (text_eq u.key (g.hash_default (serialised u.new_value))) s.datastore).0;
    }),
    record r { node_id = s.node_info.node_id; result = rpc_result_success },
    ground arith,
    refl,
  )
