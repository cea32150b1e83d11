-- ===== src/Crypto/Random.antt =====
-- include/common/crypto.h and src/common/crypto.cpp: `RandomString` and the keys of `RsaKeyPair`,
-- over the numbers that CryptoPP draws.
use kadpeer.Prelude.{
  All, ℕ, zero, suc, ◌+◌, ◌-◌, ◌%◌, ◌≤◌, ◌≡◌, ◌⊎◌, ◌&&◌, Bool, [], ◌∷◌, if◌then◌else◌, ltb, length,
  arith, refl,
}
use kadpeer.Prelude.Int.{ℤ, pos, negsuc}
use kadpeer.Text.{Text}
use kadpeer.Word.{u32_mod, to_u32, to_i32, add32}

-- `AbsoluteValue().ConvertToLong()` of a number that was drawn, and `IsConvertableToLong()`.
pub record Drawn : Type 0 where
  pub is_convertable_to_long : Bool
  pub as_long : ℤ

drawn_number : Drawn → ℕ
drawn_number d =
    if d.is_convertable_to_long then to_u32 d.as_long else add32 (u32_mod - 1) (to_u32 d.as_long)

-- The body of the loop: the character that is appended.
unfoldable pub random_char : ℕ → ℕ
random_char number =
    let num = number % 122 in
    let num = if ltb num 48 then num + 48 else num in
    let num = if ltb 57 num && ltb num 65 then num + 7 else num in
    if ltb 90 num && ltb num 97 then num + 6 else num

-- The rounds of the loop that are left, from the draw with the given index.
random_chars : (ℕ → Drawn) → ℕ → ℕ → Text
unfolding drawn_number random_char
random_chars draw i zero = []
random_chars draw i (suc n) = random_char (drawn_number (draw i)) ∷ random_chars draw (i + 1) n

unfoldable pub random_string : (ℕ → Drawn) → ℤ → Text
unfolding random_chars
random_string draw (pos n) = random_chars draw 0 n
random_string draw (negsuc n) = []

pub record RsaKeyPair : Type 0 where
  pub public_key : Text
  pub private_key : Text

-- The generated private and public key depend on the seed and the size.
unfoldable pub generate_keys : (Text → ℕ → Text × Text) → (ℕ → Drawn) → ℕ → RsaKeyPair
unfolding random_string
generate_keys generated draw size =
    let (private_key, public_key) = generated (random_string draw (to_i32 size)) size in
    record { public_key = public_key; private_key = private_key }

-- A digit, a capital letter, or a small letter before z.
abbrev pub IsCharacter : ℕ → Type 0
IsCharacter c = (48 ≤ c) × (c ≤ 57) ⊎ (65 ≤ c) × (c ≤ 90) ⊎ (97 ≤ c) × (c ≤ 121)

random_char-IsCharacter : (number : ℕ) → IsCharacter (random_char number)
unfolding random_char
random_char-IsCharacter number = ground arith

random_chars_lem :
    (draw : ℕ → Drawn) (i n : ℕ)
    → (length (random_chars draw i n) ≡ n) × All IsCharacter (random_chars draw i n)
unfolding random_chars
random_chars_lem draw i zero = (refl, tt)
random_chars_lem draw i (suc n) =
    let rest = random_chars_lem draw (i + 1) n in
    (omega (arith, rest.0), (random_char-IsCharacter (drawn_number (draw i)), rest.1))

-- RandomString has the length that is asked for, and all its characters are digits or letters, but
-- never z.
pub random_string_lem :
    (draw : ℕ → Drawn) (n : ℕ)
    → (length (random_string draw (pos n)) ≡ n) × All IsCharacter (random_string draw (pos n))
unfolding random_string
random_string_lem draw n = random_chars_lem draw 0 n
