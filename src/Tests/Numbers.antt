-- ===== src/Tests/Numbers.antt =====
-- Big integers that compute, and the theorems on identifiers, on contacts on the wire and on timers at
-- concrete inputs.
use kadpeer.Prelude.{
  ℕ, zero, suc, ◌+◌, ◌*◌, ◌-◌, ◌/◌, ◌%◌, ◌≡◌, ◌≢◌, ◌≤◌, refl, false, [], ◌∷◌, ◌++◌, Option, none,
  some, arith, if◌then◌else◌, ltb, leb, ◌&&◌, length,
}
use kadpeer.Prelude.Int.{pos, sub_ℕ}
use kadpeer.Text.{Text}
use kadpeer.TTimer.{TTimer, Floats, second, real_time, duration, show_timer}
use kadpeer.TTimer.Output.{read_after, show_timer_lem}
use kadpeer.KadId.{KadId, BigInt, split_range, middle}
use kadpeer.KadId.Laws.{split_range_bounds}
use kadpeer.Contact.{Contact, ContactInfo, make}

-- The exclusive or with the low bits of the second number.
unfoldable pub xor_bits : ℕ → ℕ → ℕ → ℕ
xor_bits zero a b = a
xor_bits (suc n) a b = (a % 2 + b % 2) % 2 + 2 * xor_bits n (a / 2) (b / 2)

pub xor_bits_twice : (n a b : ℕ) → xor_bits n (xor_bits n a b) b ≡ a
unfolding xor_bits
xor_bits_twice zero a b = refl
xor_bits_twice (suc n) a b =
    let r = xor_bits n (a / 2) (b / 2) in
    let half : ((a % 2 + b % 2) % 2 + 2 * r) / 2 ≡ r = omega arith in
    rw half (omega (arith, xor_bits_twice n (a / 2) (b / 2)))

-- The number of a text in a base, from the digits before it.
unfoldable pub read_digits : ℕ → ℕ → Text → Option ℕ
read_digits base n [] = some n
read_digits base n (d ∷ ds) =
    let rest = read_digits base (n * base + (d - 48)) ds in
    if leb 48 d && ltb d (48 + base) then rest else none

unfoldable pub read_number : Text → ℕ → Option ℕ
read_number [] base = none
read_number (d ∷ ds) base = read_digits base 0 (d ∷ ds)

-- The decimal digits, at most `fuel` of them.
unfoldable pub write_number : ℕ → ℕ → Text
write_number zero n = []
write_number (suc fuel) n =
    let before = write_number fuel (n / 10) in
    if ltb n 10 then (48 + n) ∷ [] else before ++ ((48 + n % 10) ∷ [])

abbrev pub numbers : BigInt
numbers = record {
  xor = xor_bits 8;
  xor_twice = xor_bits_twice 8;
  of_text = read_number;
  to_text = write_number 200;
}

-- A contact with the same text for all addresses
abbrev pub contact_of : KadId → Contact
contact_of id = make (pos 0) id (49 ∷ []) 80 (50 ∷ []) 81 (51 ∷ []) 82

abbrev five : Contact
five = contact_of 5

abbrev info_of_five : ContactInfo
info_of_five = record {
  node_id = 53 ∷ [];
  ip = 49 ∷ [];
  port = pos 80;
  local_ip = 50 ∷ [];
  local_port = pos 81;
  rendezvous_ip = 51 ∷ [];
  rendezvous_port = pos 82;
  has_local_ip = false;
  has_local_port = false;
  has_rendezvous_ip = false;
  has_rendezvous_port = false;
}

split_range_bounds_example :
    ((split_range 0 15).0 ≡ (split_range 0 15).1 + 1)
    × (0 ≤ (split_range 0 15).1)
    × ((split_range 0 15).0 ≤ 15)
    × ((split_range 0 15).1 + (0 % 2) * (15 % 2) ≡ middle 0 15)
split_range_bounds_example = split_range_bounds 0 15 (omega arith)

-- Differences without rounding.
abbrev exact : Floats
exact = record {
  in_seconds = λ sec usec. sec * second + usec * second / 1000000;
  float_difference = sub_ℕ;
}

-- A difference that is the 4096th part of a second less than a second.
abbrev late_timer : TTimer
late_timer = record {
  started = second;
  stopped = 2 * second - second / 4096;
  time_type = real_time;
}

-- The output is 0,1000s.
late_timer_test : show_timer exact (λ n d. []) 1 late_timer ≡ 48 ∷ 44 ∷ 49 ∷ 48 ∷ 48 ∷ 48 ∷ 115 ∷ []
unfolding show_timer
late_timer_test = refl

real-duration : real_time ≢ duration
real-duration = ground arith

show_timer_lem_example :
    (s : Text) × (m : Text) × (show_timer exact (λ n d. []) 1 late_timer
      ≡ s ++ ((44 ∷ m) ++ (115 ∷ [])))
    × (read_after 0 s * 1000 + read_after 0 m ≡ 1000)
    × (length m ≡ 4)
show_timer_lem_example = show_timer_lem exact (λ n d. []) 1 late_timer real-duration
