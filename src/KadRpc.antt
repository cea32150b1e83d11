-- ===== src/KadRpc.antt =====
-- src/kademlia/kadrpc.h and kadrpc.cpp: the client side of the remote calls. The transport and the
-- calls of the generated client are parameters, over a state `W` of the connection and what is behind
-- it; a call that throws a `TException` says so. The address arguments, which no method reads, are
-- left out.
pub mod Deleted
pub mod Served
use kadpeer.Prelude.{ℕ, Bool, true, false, List, [], ◌∷◌, Option, none, some}
use kadpeer.Prelude.Int.{ℤ, pos}
use kadpeer.Text.{Text}
use kadpeer.Word.{to_i32}
use kadpeer.Contact.{ContactInfo}
use kadpeer.KadService.{
  SignedValue, SignedRequest, PingRequest, PingResponse, FindRequest, FindResponse, StoreRequest,
  StoreResponse, DownlistRequest, DownlistResponse, BootstrapRequest, BootstrapResponse,
  DeleteRequest, KeyedResponse, ping_text,
}

-- `transport_->open()` and `transport_->close()`; `none` where `open` throws.
pub record Transport (W : Type 0) : Type 0 where
  pub open_transport : W → Option W
  pub close_transport : W → W

-- Whether a call returned, the state after it, and the response object as it leaves it.
abbrev pub Reply : Type 0 → Type 0 → Type 0
Reply W R = Bool × W × R

-- A method of the generated client, after its request.
abbrev pub Call : Type 0 → Type 0 → Type 0
Call W R = W → R → Reply W R

module _ {W R : Type 0} where
  unfoldable pub finish : Transport W → Reply W R → W × R
  finish t (true, w, r) = (t.close_transport w, r)
  finish t (false, w, r) = (w, r)

  -- The `try` of each method: an exception leaves the response as it is, and the transport open.
  unfoldable pub exchange : Transport W → Call W R → W → R → W × R
  exchange t call w r = elim (t.open_transport w) [
    | none ↦ (w, r)
    | some opened ↦ finish t (call opened r)
  ]

-- The request of both methods `Store`. An assignment to a member sets no flag of `__isset`.
unfoldable pub store_request : ContactInfo → Text → ℕ → Bool → StoreRequest
store_request info key ttl publish = record {
  key = key;
  sig_value = record { value = []; value_signature = [] };
  ttl = to_i32 ttl;
  sender_info = info;
  publish = publish;
  has_value = false;
  has_sig_value = false;
  has_signed_request = false;
}

-- The methods of `KadRpcs`, which keeps `info_`, with the method of the generated client.
module _ {W : Type 0} (t : Transport W) (info : ContactInfo) where
  unfoldable pub find_node :
      (FindRequest → Call W FindResponse) → Text → W → FindResponse → W × FindResponse
  find_node client key = exchange t (client (record { key = key; sender_info = info }))

  unfoldable pub find_value :
      (FindRequest → Call W FindResponse) → Text → W → FindResponse → W × FindResponse
  find_value client key = exchange t (client (record { key = key; sender_info = info }))

  unfoldable pub ping : (PingRequest → Call W PingResponse) → W → PingResponse → W × PingResponse
  ping client = exchange t (client (record { ping = ping_text; sender_info = info }))

  -- The text is assigned to `value`, an optional field that is not sent without its flag.
  unfoldable pub store :
      (StoreRequest → Call W StoreResponse)
      → Text
      → Text
      → ℕ
      → Bool
      → W
      → StoreResponse
      → W × StoreResponse
  store client key value ttl publish = exchange t (client (store_request info key ttl publish))

  unfoldable pub store_signed_value :
      (StoreRequest → Call W StoreResponse)
      → Text
      → SignedValue
      → ℕ
      → Bool
      → W
      → StoreResponse
      → W × StoreResponse
  store_signed_value client key value ttl publish =
      exchange t (client (store_request info key ttl publish))

  unfoldable pub downlist :
      (DownlistRequest → Call W DownlistResponse)
      → List ContactInfo
      → W
      → DownlistResponse
      → W × DownlistResponse
  downlist client contacts =
      exchange t (client (record { downlist = contacts; sender_info = info }))

  -- `node_type` is not assigned, and 0 in a new request.
  unfoldable pub bootstrap :
      (BootstrapRequest → Call W BootstrapResponse) → W → BootstrapResponse → W × BootstrapResponse
  bootstrap client =
      exchange t
        (client (record { node_type = pos 0; newcomer_ext_ip = []; newcomer_ext_port = pos 0 }))

  unfoldable pub delete :
      (DeleteRequest → Call W KeyedResponse)
      → Text
      → SignedValue
      → SignedRequest
      → W
      → KeyedResponse
      → W × KeyedResponse
  delete client key value request =
      exchange t
        (client (record { key = key; value = value; signed_request = request; sender_info = info }))
