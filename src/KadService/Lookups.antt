-- ===== src/KadService/Lookups.antt =====
-- The handlers of `KadService` (src/kademlia/kadservice.cpp) that change no value of the store: `Ping`,
-- `FindNode`, `FindValue`, `Downlist` and `Bootstrap`. Each takes the response that it writes to, and
-- is `none` where a conversion ends the process.
use kadpeer.Prelude.{
  ℕ, Bool, false, not, ◌||◌, List, [], ◌∷◌, ◌++◌, Option, none, some, if◌then◌else◌, ◌==◌,
}
use kadpeer.Prelude.Int.{ℤ, pos, negsuc}
use kadpeer.Text.{text_eq}
use kadpeer.KadId.{KadId, of_string}
use kadpeer.Contact.{Contact, ContactInfo, default_contact, parse_from_thrift, parse_to_thrift}
use kadpeer.DataStore.Queries.{load_item}
use kadpeer.KadService.{
  Given, Service, PingRequest, PingResponse, FindRequest, FindResponse, DownlistRequest,
  DownlistResponse, BootstrapRequest, BootstrapResponse, get_sender, with_contact,
  rpc_result_failure, rpc_result_success, ping_text, pong_text, ◌>>=◌,
}

-- Whether an identifier is that of a contact
unfoldable pub is_among : KadId → List Contact → Bool
is_among key [] = false
is_among key (c ∷ cs) = key == c.node_id || is_among key cs

-- `node_type == CLIENT`
abbrev pub is_client : ℤ → Bool
is_client (pos n) = n == 0
is_client (negsuc n) = false

module _ {N : Type 0} (g : Given N) where
  unfoldable pub ping : PingRequest → Service N → PingResponse → Option (Service N × PingResponse)
  ping request s r =
      if not s.node_joined
      then some (s, record r { result = rpc_result_failure })
      else if not (text_eq request.ping ping_text)
      then some (s, record r { result = rpc_result_failure; node_id = s.node_info.node_id })
      else elim (get_sender g request.sender_info) [
        | none ↦ none
        | some (sender, known) ↦
            if known
            then some (
              with_contact g sender s,
              record r {
                echo = pong_text;
                result = rpc_result_success;
                node_id = s.node_info.node_id;
              },
            )
            else some (s, record r { result = rpc_result_failure; node_id = s.node_info.node_id })
      ]

  -- The contacts as messages
  unfoldable pub all_to_thrift : List Contact → Option (List ContactInfo)
  all_to_thrift [] = some []
  all_to_thrift (c ∷ cs) = do
    i ← parse_to_thrift g.big_int g.null_id c
    is ← all_to_thrift cs
    some (i ∷ is)

  -- The contacts that `FindNode` returns: the closest ones, and that of the key.
  unfoldable pub found_contacts : KadId → List Contact → N → List Contact
  found_contacts key closest n =
      if is_among key closest
      then closest
      else elim (g.get_contact key n) [ none ↦ closest | some c ↦ closest ++ (c ∷ []) ]

  -- `FindNode` behind `GetSender`
  unfoldable pub find_node_for :
      FindRequest → Contact → Service N → FindResponse → Option (Service N × FindResponse)
  find_node_for request sender s r = do
    key ← of_string g.big_int request.key
    let closest = g.get_closest_k key (sender ∷ []) s.node
    nodes ← all_to_thrift (found_contacts key closest s.node)
    some (
      with_contact g sender s,
      record r { closest_nodes = r.closest_nodes ++ nodes; result = rpc_result_success },
    )

  unfoldable pub find_node :
      FindRequest → Service N → FindResponse → Option (Service N × FindResponse)
  find_node request s r =
      if not s.node_joined
      then some (s, record r { result = rpc_result_failure })
      else elim (get_sender g request.sender_info) [
        | none ↦ none
        | some (sender, known) ↦
            if known
            then find_node_for request sender s r
            else some (s, record r { result = rpc_result_failure })
      ]

  -- The end of `FindValue`
  abbrev pub with_node_id : Service N × FindResponse → Option (Service N × FindResponse)
  with_node_id (s, r) = some (s, record r { node_id = s.node_info.node_id })

  -- `FindValue` behind `GetSender`, at the time `now`. With keys or without, the values are appended.
  unfoldable pub find_value_for :
      ℕ → FindRequest → Contact → Service N → FindResponse → Option (Service N × FindResponse)
  find_value_for now request sender s r =
      let (values, loaded) = load_item now request.key s.datastore in
      if loaded
      then with_node_id (
        with_contact g sender s,
        record r { values = r.values ++ values; result = rpc_result_success },
      )
      else elim (find_node request s r) [ none ↦ none | some a ↦ with_node_id a ]

  unfoldable pub find_value :
      ℕ → FindRequest → Service N → FindResponse → Option (Service N × FindResponse)
  find_value now request s r =
      if not s.node_joined
      then some (s, record r { result = rpc_result_failure })
      else elim (get_sender g request.sender_info) [
        | none ↦ none
        | some (sender, known) ↦
            if known
            then find_value_for now request sender s r
            else with_node_id (s, record r { result = rpc_result_failure })
      ]

  -- The body of the loop of `Downlist`: a dead node that the node knows is pinged.
  unfoldable pub ping_known : Contact → N → N
  ping_known dead n = elim (g.get_contact dead.node_id n) [ none ↦ n | some c ↦ g.ping dead n ]

  -- The loop
  unfoldable pub ping_downlist :
      List ContactInfo → N → DownlistResponse → Option (N × DownlistResponse)
  ping_downlist [] n r = some (n, r)
  ping_downlist (i ∷ is) n r = do
    d ← parse_from_thrift g.big_int i (default_contact g.unset)
    if d.1
        then ping_downlist is (ping_known d.0 n) (record r { result = rpc_result_success })
        else ping_downlist is n r

  unfoldable pub downlist :
      DownlistRequest → Service N → DownlistResponse → Option (Service N × DownlistResponse)
  downlist request s r =
      if not s.node_joined
      then some (s, record r { result = rpc_result_failure })
      else elim (get_sender g request.sender_info) [
        | none ↦ none
        | some (sender, known) ↦
            if known
            then elim (ping_downlist request.downlist s.node r) [
              | none ↦ none
              | some (n, r') ↦ some (with_contact g sender (record s { node = n }), r')
            ]
            else some (s, record r { result = rpc_result_failure })
      ]

-- `Bootstrap`, which writes no result for a node that is no client.
unfoldable pub bootstrap :
    {N : Type 0} → BootstrapRequest → Service N → BootstrapResponse → BootstrapResponse
bootstrap request s r =
    if not s.node_joined
    then record r { result = rpc_result_failure }
    else if is_client request.node_type
    then record r {
      bootstrap_id = s.node_info.node_id;
      newcomer_ext_ip = request.newcomer_ext_ip;
      newcomer_ext_port = request.newcomer_ext_port;
      result = rpc_result_success;
    }
    else r
