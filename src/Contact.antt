-- ===== src/Contact.antt =====
-- src/kademlia/contact.h and contact.cpp: a node of the network with its addresses.
pub mod Wire
use kadpeer.Prelude.{ℕ, ◌≡◌, Bool, true, false, List, [], Option, none, some, ◌==◌, if◌then◌else◌}
use kadpeer.Prelude.Int.{ℤ, pos}
use kadpeer.KadId.{KadId, BigInt, of_string}
use kadpeer.Text.{Text, is_empty}
use kadpeer.Word.{to_u16}

pub record Contact : Type 0 where
  pub node_id : KadId
  pub host_ip : Text
  pub host_port : ℕ
  pub rendezvous_ip : Text
  pub rendezvous_port : ℕ
  pub local_ip : Text
  pub local_port : ℕ
  pub last_seen : ℤ

-- The constructor with all addresses. No constructor of the class sets `last_seen_`, so what it
-- holds, `unset`, is an argument.
abbrev pub make : ℤ → KadId → Text → ℕ → Text → ℕ → Text → ℕ → Contact
make unset node_id host_ip host_port local_ip local_port rendezvous_ip rendezvous_port = record {
  node_id = node_id;
  host_ip = host_ip;
  host_port = host_port;
  rendezvous_ip = rendezvous_ip;
  rendezvous_port = rendezvous_port;
  local_ip = local_ip;
  local_port = local_port;
  last_seen = unset;
}

-- `Contact()`
unfoldable pub default_contact : ℤ → Contact
default_contact unset = make unset 0 [] 0 [] 0 [] 0

-- `Contact(node_id, host_ip, host_port)`, and with the local address
unfoldable pub host_contact : ℤ → KadId → Text → ℕ → Contact
host_contact unset node_id host_ip host_port = make unset node_id host_ip host_port [] 0 [] 0

unfoldable pub local_contact : ℤ → KadId → Text → ℕ → Text → ℕ → Contact
local_contact unset node_id host_ip host_port local_ip local_port =
    make unset node_id host_ip host_port local_ip local_port [] 0

abbrev pub equals : Contact → Contact → Bool
equals a b = a.node_id == b.node_id

abbrev pub set_last_seen : ℤ → Contact → Contact
set_last_seen t c = record c { last_seen = t }

-- The message type `ContactInfo` (src/thrift/contact_info.thrift), whose ports are `int32_t`. The four
-- fields of addresses that are optional have flags in `__isset`.
pub record ContactInfo : Type 0 where
  pub node_id : Text
  pub ip : Text
  pub port : ℤ
  pub local_ip : Text
  pub local_port : ℤ
  pub rendezvous_ip : Text
  pub rendezvous_port : ℤ
  pub has_local_ip : Bool
  pub has_local_port : Bool
  pub has_rendezvous_ip : Bool
  pub has_rendezvous_port : Bool

-- A default `ContactInfo`
unfoldable pub empty_info : ContactInfo
empty_info = record {
  node_id = [];
  ip = [];
  port = pos 0;
  local_ip = [];
  local_port = pos 0;
  rendezvous_ip = [];
  rendezvous_port = pos 0;
  has_local_ip = false;
  has_local_port = false;
  has_rendezvous_ip = false;
  has_rendezvous_port = false;
}

-- `Contact(contact_info)`; `none` where the identifier is no octal numeral and the process ends.
unfoldable pub of_info : BigInt → ℤ → ContactInfo → Option Contact
of_info bi unset i = elim (of_string bi i.node_id) [
  | none ↦ none
  | some id ↦ some (
      make unset id i.ip (to_u16 i.port) i.local_ip (to_u16 i.local_port) i.rendezvous_ip
        (to_u16 i.rendezvous_port))
]

-- `ParseFromThrift`: the contact after the call, and the result.
unfoldable pub parse_from_thrift : BigInt → ContactInfo → Contact → Option (Contact × Bool)
parse_from_thrift bi i c =
    if is_empty i.node_id then some (c, false) else elim (of_string bi i.node_id) [
      | none ↦ none
      | some id ↦ some (
        record c {
          node_id = id;
          host_ip = i.ip;
          host_port = to_u16 i.port;
          rendezvous_ip = i.rendezvous_ip;
          rendezvous_port = to_u16 i.rendezvous_port;
          local_ip = i.local_ip;
          local_port = to_u16 i.local_port;
        },
        true,
      )
    ]

-- `ParseToThrift`. The value that the source compares with, `KadID(0)`, is the constructor from a
-- text at a null pointer; `null_id` says what it gives, `none` where it ends the process. A contact
-- whose identifier is this value runs off the end of the function without a result: `none` too. The
-- assignments set no flag of the fresh `ContactInfo`.
unfoldable pub parse_to_thrift : BigInt → Option KadId → Contact → Option ContactInfo
parse_to_thrift bi null_id c = elim null_id [
  | none ↦ none
  | some zero_id ↦
      if c.node_id == zero_id
      then none
      else some (record {
        node_id = bi.to_text c.node_id;
        ip = c.host_ip;
        port = pos c.host_port;
        local_ip = c.local_ip;
        local_port = pos c.local_port;
        rendezvous_ip = c.rendezvous_ip;
        rendezvous_port = pos c.rendezvous_port;
        has_local_ip = false;
        has_local_port = false;
        has_rendezvous_ip = false;
        has_rendezvous_port = false;
      })
]

-- What the generated writer and reader make of a message, in a fresh one: a field without its flag is
-- not written, and keeps its default.
unfoldable pub sent_info : ContactInfo → ContactInfo
sent_info i = record i {
  local_ip = if i.has_local_ip then i.local_ip else [];
  local_port = if i.has_local_port then i.local_port else pos 0;
  rendezvous_ip = if i.has_rendezvous_ip then i.rendezvous_ip else [];
  rendezvous_port = if i.has_rendezvous_port then i.rendezvous_port else pos 0;
}
