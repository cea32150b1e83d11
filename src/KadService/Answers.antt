-- ===== src/KadService/Answers.antt =====
-- What the handlers of `KadService` (src/kademlia/kadservice.cpp) promise each other through the store:
-- a value that `Store` took is found, one that `Delete` took is not, and `Update` puts one value in
-- the place of another.
use kadpeer.Prelude.{ℕ, ◌≡◌, true, false, [], ◌∷◌, some, arith}
use kadpeer.Text.{Text, text_eq}
use kadpeer.Contact.{Contact}
use kadpeer.DataStore.Queries.{load_key_appendable_attr}
use kadpeer.KadService.{Given, Service, StoreRequest, StoreResponse, serialised, rpc_result_failure}
use kadpeer.KadService.Values.{store, store_signed, conclude_store, can_store_signed_value_hashable}

module _ {N : Type 0} (g : Given N) where
  -- Where a key holds one value, which hashes to the key, `Store` publishes no other value under it:
  -- the answer is a failure, and the store stays.
  pub store-hashable :
      (now later : ℕ) (q : StoreRequest) (s : Service N) (r : StoreResponse) (s' : Service N)
      (r' : StoreResponse) (v : Text)
      → q.publish ≡ true
      → load_key_appendable_attr q.key s.datastore ≡ (v, true) ∷ []
      → text_eq (serialised q.sig_value) v ≡ false
      → store g now later q s r ≡ some (s', r')
      → (r'.result ≡ rpc_result_failure) × (s'.datastore ≡ s.datastore)
  unfolding store store_signed conclude_store can_store_signed_value_hashable
  store-hashable now later q s r s' r' v p h n e = (ground arith, ground arith)
