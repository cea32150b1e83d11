-- ===== src/Word.antt =====
-- The machine integers that the sources use: `uint32_t`, `int32_t` and `unsigned short`, as ranges of
-- the numbers and integers, with the conversions between them written out.
use kadpeer.Prelude.{ℕ, ◌+◌, ◌-◌, ◌%◌, ◌<◌, ◌≡◌, arith, ltb, if◌then◌else◌, Option, some, none}
use kadpeer.Prelude.Int.{ℤ, pos, negsuc}

abbrev pub u16_mod : ℕ
u16_mod = 65536

abbrev pub i32_limit : ℕ
i32_limit = 2147483648

abbrev pub u32_mod : ℕ
u32_mod = 4294967296

-- Conversions to an unsigned type reduce modulo 2 ^ width.
abbrev pub to_unsigned : ℕ → ℤ → ℕ
to_unsigned m (pos n) = n % m
to_unsigned m (negsuc n) = m - 1 - n % m

abbrev pub to_u16 : ℤ → ℕ
to_u16 = to_unsigned u16_mod

abbrev pub to_u32 : ℤ → ℕ
to_u32 = to_unsigned u32_mod

-- `static_cast<int32_t>` of a `uint32_t`, in two's complement.
abbrev pub to_i32 : ℕ → ℤ
to_i32 u = if ltb u i32_limit then pos u else negsuc (u32_mod - 1 - u)

-- A value of `unsigned short` as a `short`; `none` for a negative one.
unfoldable pub short_index : ℕ → Option ℕ
short_index u = if ltb u 32768 then some u else none

pub short_index-small : (u : ℕ) → u < 32768 → short_index u ≡ some u
unfolding short_index
short_index-small u h = ground arith

abbrev pub add32 : ℕ → ℕ → ℕ
add32 a b = (a + b) % u32_mod

abbrev pub sub32 : ℕ → ℕ → ℕ
sub32 a b = (a + u32_mod - b) % u32_mod

-- A signed difference of two times is positive exactly if the first lies ahead of the second by
-- less than half the range.
sub32_ahead : (a b : ℕ) → a < u32_mod → b < a → a < b + i32_limit → to_i32 (sub32 a b) ≡ pos (a - b)
sub32_ahead a b h k l = ground arith
