-- ===== src/KadId.antt =====
-- src/kademlia/kadid.h and kadid.cpp: the identifiers of nodes and keys. A `KadID` holds one
-- `BigInt::Rossi`, an unsigned integer without bound, which is the number here; the comparisons,
-- `+`, `-` and `>>` of the class are those of the numbers.
pub mod Laws
use kadpeer.Prelude.{ℕ, ◌+◌, ◌-◌, ◌/◌, ◌^◌, ◌≡◌, Bool, Option, some, not, ltb, leb}
use kadpeer.Text.{Text}

abbrev pub KadId : Type 0
KadId = ℕ

-- What the class takes from the big integers (include/common/BigInt.h, another project's library):
-- the exclusive or, and the conversions from a text with a base and to a text. A text that is no
-- numeral fails an assertion of the library, which ends the process: `none`.
pub record BigInt : Type 0 where
  pub xor : ℕ → ℕ → ℕ
  pub xor_twice : (a b : ℕ) → xor (xor a b) b ≡ a
  pub of_text : Text → ℕ → Option ℕ
  pub to_text : ℕ → Text

-- `KadID(std::string raw)`, which reads octal digits.
unfoldable pub of_string : BigInt → Text → Option KadId
of_string bi raw = bi.of_text raw 8

-- `KadID(min, max)`
unfoldable pub middle : KadId → KadId → KadId
middle min max = (min + max) / 2

-- `KMaxID`: the decimal number with 160 digits 1.
unfoldable pub kmax_id : KadId
kmax_id = (10 ^ 160 - 1) / 9

unfoldable pub kmin_id : KadId
kmin_id = 0

-- The friend `operator <=`, and `operator >=`
unfoldable pub le_id : KadId → KadId → Bool
le_id ls rs = not (ltb rs ls)

unfoldable pub ge_id : KadId → KadId → Bool
ge_id ls rs = not (ltb ls rs)

-- `operator ^`
abbrev pub distance : BigInt → KadId → KadId → KadId
distance bi ls rs = bi.xor ls rs

unfoldable pub closer_to_target : BigInt → KadId → KadId → KadId → Bool
closer_to_target bi id1 id2 target = ltb (distance bi id1 target) (distance bi id2 target)

-- `SplitRange`, with what it writes to `*min1` and `*max1`, in this order.
unfoldable pub split_range : KadId → KadId → KadId × KadId
split_range min max = let max1 = min / 2 + max / 2 in (max1 + 1, max1)
