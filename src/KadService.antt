-- ===== src/KadService.antt =====
-- src/kademlia/kadservice.h and kadservice.cpp: the handlers of a node's remote calls, over its data
-- store and the functions of the node that it is given. The messages are those of
-- src/thrift/kademlia_service_messages.thrift; an optional field of a message holds its default
-- where it was not set, as the generated classes have it.
pub mod Lookups
pub mod Values
pub mod Gate
pub mod Answers
pub mod Requests
use kadpeer.Prelude.{
  ℕ, ◌≡◌, Bool, true, false, not, ◌&&◌, ◌||◌, List, [], ◌∷◌, ◌++◌, Option, none, some,
  if◌then◌else◌,
}
use kadpeer.Prelude.Int.{ℤ}
use kadpeer.Text.{Text}
use kadpeer.KadId.{KadId, BigInt}
use kadpeer.Contact.{Contact, ContactInfo, default_contact, parse_from_thrift}
use kadpeer.DataStore.{DataStore}

infixl 5 ◌>>=◌
abbrev pub ◌>>=◌ {ℓ κ} : {A : Type ℓ} {B : Type κ} → Option A → (A → Option B) → Option B
none >>= f = none
some a >>= f = f a

-- `kRpcResultFailure` and `kRpcResultSuccess` (src/kademlia/kademlia_config.h)
abbrev pub rpc_result_failure : Text
rpc_result_failure = 70 ∷ []

abbrev pub rpc_result_success : Text
rpc_result_success = 83 ∷ []

abbrev pub ping_text : Text
ping_text = 112 ∷ 105 ∷ 110 ∷ 103 ∷ []

abbrev pub pong_text : Text
pong_text = 112 ∷ 111 ∷ 110 ∷ 103 ∷ []

pub record SignedValue : Type 0 where
  pub value : Text
  pub value_signature : Text

-- What the source makes of a signed value before it stores it.
abbrev pub serialised : SignedValue → Text
serialised v = v.value ++ v.value_signature

pub record SignedRequest : Type 0 where
  pub signer_id : Text
  pub public_key : Text
  pub signed_public_key : Text
  pub signed_request : Text

pub record PingRequest : Type 0 where
  pub ping : Text
  pub sender_info : ContactInfo

pub record PingResponse : Type 0 where
  pub result : Text
  pub echo : Text
  pub node_id : Text

pub record FindRequest : Type 0 where
  pub key : Text
  pub sender_info : ContactInfo

pub record FindResponse : Type 0 where
  pub result : Text
  pub closest_nodes : List ContactInfo
  pub values : List Text
  pub node_id : Text

-- `has_value`, `has_sig_value` and `has_signed_request` are the flags of `__isset`.
pub record StoreRequest : Type 0 where
  pub key : Text
  pub sig_value : SignedValue
  pub ttl : ℤ
  pub sender_info : ContactInfo
  pub publish : Bool
  pub has_value : Bool
  pub has_sig_value : Bool
  pub has_signed_request : Bool

pub record StoreResponse : Type 0 where
  pub result : Text

pub record DownlistRequest : Type 0 where
  pub downlist : List ContactInfo
  pub sender_info : ContactInfo

pub record DownlistResponse : Type 0 where
  pub result : Text

pub record BootstrapRequest : Type 0 where
  pub node_type : ℤ
  pub newcomer_ext_ip : Text
  pub newcomer_ext_port : ℤ

pub record BootstrapResponse : Type 0 where
  pub result : Text
  pub bootstrap_id : Text
  pub newcomer_ext_ip : Text
  pub newcomer_ext_port : ℤ

pub record DeleteRequest : Type 0 where
  pub key : Text
  pub value : SignedValue
  pub signed_request : SignedRequest
  pub sender_info : ContactInfo

-- `DeleteResponse` and `UpdateResponse` have the same fields.
pub record KeyedResponse : Type 0 where
  pub result : Text
  pub node_id : Text

pub record UpdateRequest : Type 0 where
  pub key : Text
  pub new_value : SignedValue
  pub old_value : SignedValue
  pub ttl : ℤ
  pub request : SignedRequest
  pub sender_info : ContactInfo

-- What the service is given: the functions of the node that owns it, over the node's state `N`, and
-- the calls of the classes that it uses. `hash_default` and `hash_sha512` are `Crypto::Hash` with the
-- algorithm that a new `Crypto` has, and after `set_hash_algorithm(SHA_512)`; `null_id` and `unset`
-- are as in `Contact`.
pub record Given (N : Type 0) : Type 0 where
  pub big_int : BigInt
  pub null_id : Option KadId
  pub unset : ℤ
  pub add_contact : Contact → N → N
  pub get_contact : KadId → N → Option Contact
  pub get_closest_k : KadId → List Contact → N → List Contact
  pub ping : Contact → N → N
  pub hash_default : Text → Text
  pub hash_sha512 : Text → Text
  pub check_sig : Text → Text → Text → Bool

pub record Service (N : Type 0) : Type 0 where
  pub node : N
  pub datastore : DataStore
  pub node_joined : Bool
  pub node_has_rsa_keys : Bool
  pub node_info : ContactInfo

module _ {N : Type 0} (g : Given N) where
  -- `GetSender`, into a new `Contact`: the contact and the result; `none` where the identifier is no
  -- numeral and the process ends.
  unfoldable pub get_sender : ContactInfo → Option (Contact × Bool)
  get_sender sender_info = parse_from_thrift g.big_int sender_info (default_contact g.unset)

  -- `add_contact_(sender, false)`
  abbrev pub with_contact : Contact → Service N → Service N
  with_contact sender s = record s { node = g.add_contact sender s.node }

  unfoldable pub check_store_request : StoreRequest → Service N → Option (Contact × Bool)
  check_store_request request s =
      let complete =
        if s.node_has_rsa_keys
        then request.has_signed_request && request.has_sig_value
        else request.has_value in
      if complete then get_sender request.sender_info else some (default_contact g.unset, false)

module _ {N : Type 0} where
  abbrev pub set_node_joined : Bool → Service N → Service N
  set_node_joined joined s = record s { node_joined = joined }

  abbrev pub set_node_info : ContactInfo → Service N → Service N
  set_node_info info s = record s { node_info = info }
