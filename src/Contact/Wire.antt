-- ===== src/Contact/Wire.antt =====
-- A contact on the wire: `ParseToThrift` and `ParseFromThrift` of src/kademlia/contact.cpp.
use kadpeer.Prelude.{◌≡◌, ◌<◌, true, false, Option, some, arith}
use kadpeer.KadId.{KadId, BigInt, of_string}
use kadpeer.Text.{is_empty}
use kadpeer.Word.{u16_mod}
use kadpeer.Contact.{Contact, ContactInfo, parse_from_thrift, parse_to_thrift}

-- The ports fit an `unsigned short`.
pub record IsValid (c : Contact) : Type 0 where
  pub host : c.host_port < u16_mod
  pub rendezvous : c.rendezvous_port < u16_mod
  pub local_side : c.local_port < u16_mod

-- `ParseFromThrift` of the message that `ParseToThrift` makes of a contact whose ports fit: all
-- addresses come back, and the identifier is the one that the octal reader makes of the text that the
-- library prints; `d` is the contact that is parsed into, which keeps its time.
pub parse_from_thrift-parse_to_thrift :
    (bi : BigInt) (null_id : Option KadId) (c d : Contact) (i : ContactInfo) (id : KadId)
    → IsValid c
    → parse_to_thrift bi null_id c ≡ some i
    → is_empty (bi.to_text c.node_id) ≡ false
    → bi.of_text (bi.to_text c.node_id) 8 ≡ some id
    → parse_from_thrift bi i d ≡ some (record c { node_id = id; last_seen = d.last_seen }, true)
unfolding parse_from_thrift parse_to_thrift of_string
parse_from_thrift-parse_to_thrift bi null_id c d i id v sent nonempty read = ground arith
