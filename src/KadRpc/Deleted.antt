-- ===== src/KadRpc/Deleted.antt =====
-- `KadRpcs::Delete` of src/kademlia/kadrpc.cpp against `KadService::Delete`.
use kadpeer.Prelude.{ℕ, true, false, [], none, some}
use kadpeer.Text.{Text}
use kadpeer.KadService.{Given, Service, DeleteRequest, KeyedResponse}
use kadpeer.KadService.Values.{delete}
use kadpeer.KadRpc.{Call}
use kadpeer.KadRpc.{delete as call_delete}

module _ {N : Type 0} (g : Given N) (now : ℕ) where
  abbrev fresh : KeyedResponse
  fresh = record { result = []; node_id = [] }

  -- The call of `Delete` at a node. The answer holds a result, and no identifier, whose flag the
  -- handler does not set; a node whose process ends answers nothing.
  unfoldable pub served_delete : DeleteRequest → Call (Service N) KeyedResponse
  served_delete q s r = elim (delete g now q s fresh) [
    | none ↦ (false, s, r)
    | some (s', answer) ↦ (true, s', record r { result = answer.result })
  ]
