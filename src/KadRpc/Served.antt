-- ===== src/KadRpc/Served.antt =====
-- The client of src/kademlia/kadrpc.cpp against the handlers of src/kademlia/kadservice.cpp.
use kadpeer.Prelude.{ℕ, ◌≡◌, refl, ap, Bool, true, false, [], none, some, arith, if◌then◌else◌}
use kadpeer.Text.{Text}
use kadpeer.Contact.{ContactInfo}
use kadpeer.KadService.{
  Given, Service, SignedValue, StoreRequest, StoreResponse, check_store_request, rpc_result_failure,
}
use kadpeer.KadService.Values.{store}
use kadpeer.KadRpc.{Transport, Call, finish, exchange, store_request, store_signed_value}
use kadpeer.KadRpc.{store as call_store}

-- `StoreRequest::write` and `read` (src/thrift/gen-cpp/kademlia_service_messages_types.cpp): an
-- optional field without its flag is not sent, and keeps its default.
unfoldable pub sent_store : StoreRequest → StoreRequest
sent_store q = record q {
  sig_value = if q.has_sig_value then q.sig_value else record { value = []; value_signature = [] };
}

exchange-returned :
    {W R : Type 0} (t : Transport W) (call : Call W R) (w opened left : W) (r answer : R)
    → t.open_transport w ≡ some opened
    → call opened r ≡ (true, left, answer)
    → exchange t call w r ≡ (t.close_transport left, answer)
unfolding exchange finish
exchange-returned t call w opened left r answer e f = rw (exchange, e) (ap (finish t) f)

module _ {N : Type 0} (g : Given N) (now later : ℕ) where
  -- The call of `Store` at a node, whose answer holds a result. A node whose process ends answers
  -- nothing.
  unfoldable pub served_store : StoreRequest → Call (Service N) StoreResponse
  served_store q s r = elim (store g now later (sent_store q) s (record { result = [] })) [
    | none ↦ (false, s, r)
    | some (s', answer) ↦ (true, s', answer)
  ]

  served_store-unflagged :
      (q : StoreRequest) (s : Service N) (r : StoreResponse)
      → q.has_value ≡ false
      → q.has_sig_value ≡ false
      → served_store q s r ≡ (true, s, record { result = rpc_result_failure })
  unfolding served_store store check_store_request sent_store
  served_store-unflagged q s r no_value no_sig_value = ground arith

  -- Every call of `Store` that a client makes is answered with a failure, whether it gives a text or a
  -- signed value, and leaves the node as it is, its store included, where the transport opens and
  -- closes without a change at the node: the request reaches the node without a value.
  pub store-refused :
      (t : Transport (Service N)) (info : ContactInfo) (key value : Text) (signed : SignedValue)
      (ttl : ℕ) (publish : Bool) (s : Service N) (r : StoreResponse)
      → ((w : Service N) → t.open_transport w ≡ some w)
      → ((w : Service N) → t.close_transport w ≡ w)
      → (call_store t info served_store key value ttl publish s r
          ≡ (s, record { result = rpc_result_failure }))
        × (store_signed_value t info served_store key signed ttl publish s r
            ≡ (s, record { result = rpc_result_failure }))
  unfolding call_store store_signed_value store_request
  store-refused t info key value signed ttl publish s r opens closes =
      let q = store_request info key ttl publish in
      let refused = served_store-unflagged q s r refl refl in
      let e = exchange-returned t (served_store q) s s s r _ (opens s) refused in
      (rw (closes s) at e, rw (closes s) at e)
