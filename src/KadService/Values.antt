-- ===== src/KadService/Values.antt =====
-- The handlers of `KadService` (src/kademlia/kadservice.cpp) that change values of the store: `Store`
-- with `StoreValueLocal`, `Delete` and `Update`. Each call of the store reads the time of day, so a
-- handler that makes two of them takes two times.
use kadpeer.Prelude.{
  ℕ, Bool, true, false, not, ◌&&◌, [], ◌∷◌, ◌++◌, Option, none, some, if◌then◌else◌,
}
use kadpeer.Prelude.Int.{ℤ}
use kadpeer.Text.{Text, text_eq, contains, is_empty}
use kadpeer.Contact.{Contact}
use kadpeer.DataStore.{DataStore}
use kadpeer.DataStore.Operations.{store_item, refresh_item, mark_for_deletion, update_item}
use kadpeer.DataStore.Queries.{load_item, load_key_appendable_attr}
use kadpeer.KadService.{
  Given, Service, StoreRequest, StoreResponse, DeleteRequest, UpdateRequest, KeyedResponse,
  SignedRequest, serialised, get_sender, with_contact, check_store_request, rpc_result_failure,
  rpc_result_success,
}

-- The text that `Delete` keeps of a signed request
abbrev pub joined : SignedRequest → Text
joined q = q.signer_id ++ (q.public_key ++ (q.signed_public_key ++ q.signed_request))

module _ {N : Type 0} (g : Given N) where
  -- `CanStoreSignedValueHashable`: the result, and what it writes to `*hashable`.
  unfoldable pub can_store_signed_value_hashable : Text → Text → DataStore → Bool × Bool
  can_store_signed_value_hashable key value s = elim (load_key_appendable_attr key s) [
    | [] ↦ (true, text_eq key (g.hash_sha512 value))
    | (v, hashable) ∷ [] ↦ (not (hashable && not (text_eq value v)), hashable)
    | _ ∷ _ ∷ _ ↦ (true, false)
  ]

  -- The calls of the store in `StoreValueLocal` of a `SignedValue`. The requests of deletions that
  -- `RefreshItem` finds are not answered with.
  unfoldable pub store_signed : ℕ → ℕ → Text → Text → ℤ → Bool → DataStore → DataStore × Bool
  store_signed now later key value ttl publish s =
      let (can, hashable) = can_store_signed_value_hashable key value s in
      let (s', refreshed, ser_del_request) = refresh_item now key value [] s in
      let (can', hashable') = can_store_signed_value_hashable key value s' in
      if publish
      then (if can then store_item now key value ttl hashable s else (s, false))
      else if not refreshed && (can' && is_empty ser_del_request)
      then store_item later key value ttl hashable' s'
      else (s', refreshed)

  -- `StoreValueLocal` of a `std::string`, which no handler calls.
  unfoldable pub store_plain : ℕ → ℕ → Text → Text → ℤ → Bool → DataStore → DataStore × Bool
  store_plain now later key value ttl publish s =
      let (s', refreshed, ser_del_request) = refresh_item now key value [] s in
      if publish
      then store_item now key value ttl false s
      else if not refreshed && is_empty ser_del_request
      then store_item later key value ttl false s'
      else (s', refreshed)

  -- The end of both: the sender of a value that was stored becomes a contact.
  unfoldable pub conclude_store :
      Contact → DataStore × Bool → Service N → StoreResponse → Service N × StoreResponse
  conclude_store sender (store, stored) s r =
      if stored
      then (
        with_contact g sender (record s { datastore = store }),
        record r { result = rpc_result_success },
      )
      else (record s { datastore = store }, record r { result = rpc_result_failure })

  unfoldable pub store :
      ℕ → ℕ → StoreRequest → Service N → StoreResponse → Option (Service N × StoreResponse)
  store now later request s r =
      if not s.node_joined
      then some (s, record r { result = rpc_result_failure })
      else elim (check_store_request g request s) [
        | none ↦ none
        | some (sender, ok) ↦
            if ok
            then some (
                conclude_store sender
                  (store_signed now later request.key (serialised request.sig_value) request.ttl
                    request.publish s.datastore)
                  s r)
            else some (s, record r { result = rpc_result_failure })
      ]

  unfoldable pub delete :
      ℕ → DeleteRequest → Service N → KeyedResponse → Option (Service N × KeyedResponse)
  delete now request s r =
      let failed = record r { node_id = s.node_info.node_id; result = rpc_result_failure } in
      let (store', marked) =
        mark_for_deletion request.key (serialised request.value) (joined request.signed_request)
          s.datastore in
      let s' = record s { datastore = store' } in
      if not s.node_joined
      then some (s, record r { result = rpc_result_failure })
      else if not (load_item now request.key s.datastore).1
      then some (s, failed)
      else if not marked
      then some (s', failed)
      else elim (get_sender g request.sender_info) [
        | none ↦ none
        | some (sender, known) ↦
            if known
            then some (
              with_contact g sender s',
              record r { node_id = s.node_info.node_id; result = rpc_result_success },
            )
            else some (s', failed)
      ]

  -- The test of `Update` on the stored values and the signature of the new one
  abbrev pub may_update : ℕ → UpdateRequest → Service N → Bool
  may_update now request s =
      let (values, loaded) = load_item now request.key s.datastore in
      s.node_joined
      && (loaded
          && (contains (serialised request.old_value) values
              && g.check_sig request.new_value.value request.new_value.value_signature
                  request.request.public_key))

  unfoldable pub update :
      ℕ → ℕ → UpdateRequest → Service N → KeyedResponse → Option (Service N × KeyedResponse)
  update now later request s r =
      let failed = record r { node_id = s.node_info.node_id; result = rpc_result_failure } in
      let new_value = serialised request.new_value in
      let (store', updated) =
        update_item later request.key (serialised request.old_value) new_value request.ttl
          (text_eq request.key (g.hash_default new_value)) s.datastore in
      let s' = record s { datastore = store' } in
      if not (may_update now request s)
      then some (s, failed)
      else if not updated
      then some (s', failed)
      else elim (get_sender g request.sender_info) [
        | none ↦ none
        | some (sender, known) ↦
            if known
            then some (with_contact g sender s', record failed { result = rpc_result_success })
            else some (s', failed)
      ]
