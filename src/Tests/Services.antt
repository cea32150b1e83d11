-- ===== src/Tests/Services.antt =====
-- The theorems on `KadService` at concrete requests.
use kadpeer.Prelude.{ℕ, ◌≡◌, refl, Bool, true, false, List, [], ◌∷◌, Option, none, some, take}
use kadpeer.Prelude.Int.{pos}
use kadpeer.Text.{Text}
use kadpeer.Contact.{Contact, ContactInfo}
use kadpeer.KBucket.{find_contact}
use kadpeer.DataStore.{init}
use kadpeer.DataStore.Operations.{Command, store_value, run}
use kadpeer.KadService.{
  Given, Service, SignedValue, SignedRequest, FindRequest, FindResponse, StoreRequest,
  StoreResponse, DeleteRequest, UpdateRequest, KeyedResponse, serialised, rpc_result_failure,
}
use kadpeer.KadService.Lookups.{find_value}
use kadpeer.KadService.Values.{store, delete, update}
use kadpeer.KadService.Requests.{Request, store_request, delete_request, serve_all}
use kadpeer.KadRpc.{Transport, store_signed_value}
use kadpeer.KadRpc.{delete as call_delete}
use kadpeer.KadRpc.{store as call_store}
use kadpeer.KadRpc.Served.{served_store, store-refused}
use kadpeer.Tests.Numbers.{numbers}

-- A node that is a list of contacts, with a hash that is the text itself.
abbrev pub given : Given (List Contact)
given = record {
  big_int = numbers;
  null_id = none;
  unset = pos 0;
  add_contact = λ c n. c ∷ n;
  get_contact = find_contact;
  get_closest_k = λ key exclude n. take 2 n;
  ping = λ c n. n;
  hash_default = λ t. t;
  hash_sha512 = λ t. t;
  check_sig = λ value signature public_key. true;
}

-- The sender 5
abbrev pub sender : ContactInfo
sender = record {
  node_id = 53 ∷ [];
  ip = [];
  port = pos 0;
  local_ip = [];
  local_port = pos 0;
  rendezvous_ip = [];
  rendezvous_port = pos 0;
  has_local_ip = false;
  has_local_port = false;
  has_rendezvous_ip = false;
  has_rendezvous_port = false;
}

abbrev pub one : SignedValue
one = record { value = 49 ∷ []; value_signature = 115 ∷ [] }

abbrev two : SignedValue
two = record { value = 50 ∷ []; value_signature = 115 ∷ [] }

abbrev pub key : Text
key = 107 ∷ []

abbrev pub signed : SignedRequest
signed = record { signer_id = []; public_key = []; signed_public_key = []; signed_request = [] }

-- A node with the first value, hashable or not
abbrev pub history : Bool → List (ℕ × Command)
history hashable = (1000, store_value key (serialised one) (pos 3600) hashable) ∷ []

abbrev pub service : Bool → Service (List Contact)
service hashable = record {
  node = [];
  datastore = run (history hashable) (init 100);
  node_joined = true;
  node_has_rsa_keys = true;
  node_info = sender;
}

abbrev empty_find : FindResponse
empty_find = record { result = []; closest_nodes = []; values = []; node_id = [] }

abbrev pub empty_keyed : KeyedResponse
empty_keyed = record { result = []; node_id = [] }

abbrev find_request : FindRequest
find_request = record { key = key; sender_info = sender }

abbrev store_two : StoreRequest
store_two = record {
  key = key;
  sig_value = two;
  ttl = pos 60;
  sender_info = sender;
  publish = true;
  has_value = false;
  has_sig_value = true;
  has_signed_request = true;
}

abbrev delete_one : DeleteRequest
delete_one = record { key = key; value = one; signed_request = signed; sender_info = sender }

abbrev pub update_one : UpdateRequest
update_one = record {
  key = key;
  new_value = two;
  old_value = one;
  ttl = pos 60;
  request = signed;
  sender_info = sender;
}

-- A result that may be missing
abbrev from {ℓ} : {A : Type ℓ} → A → Option A → A
from a none = a
from a (some b) = b

abbrev updated : Service (List Contact) × KeyedResponse
updated =
    from (service false, empty_keyed)
      (update given 2000 2000 update_one (service false) empty_keyed)

abbrev stored : Service (List Contact) × StoreResponse
stored =
    from (service false, record { result = [] })
      (store given 2000 2000 store_two (service false) (record { result = [] }))

abbrev answered : Service (List Contact) × FindResponse
answered =
    from (service false, empty_find) (find_value given 2000 find_request (service false) empty_find)

abbrev deleted : Service (List Contact) × KeyedResponse
deleted =
    from (service false, empty_keyed) (delete given 2000 delete_one (service false) empty_keyed)

-- Two requests after each other
abbrev requests : List (ℕ × ℕ × Request)
requests = (2000, 2000, store_request store_two) ∷ (2010, 2010, delete_request delete_one) ∷ []

abbrev served : Service (List Contact)
served = from (service false) (serve_all given requests (service false))

-- A transport that leaves the node alone
abbrev local_transport : {N : Type 0} → Transport (Service N)
local_transport = record { open_transport = λ w. some w; close_transport = λ w. w }

store-refused_example :
    (call_store local_transport sender
        (served_store given 1000 1000)
        key
        (49 ∷ [])
        3600
        true
        (service false)
        (record { result = [] })
      ≡ (service false, record { result = rpc_result_failure }))
    × (store_signed_value local_transport sender
          (served_store given 1000 1000)
          key
          one
          3600
          true
          (service false)
          (record { result = [] })
        ≡ (service false, record { result = rpc_result_failure }))
store-refused_example =
    store-refused given 1000 1000 local_transport sender key (49 ∷ []) one 3600 true (service false)
      (record { result = [] }) (λ w. refl) (λ w. refl)
