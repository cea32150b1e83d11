-- ===== src/Text.antt =====
-- Texts (`std::string`), as lists of bytes, with the comparison of `std::string`.
use kadpeer.Prelude.{ℕ, zero, suc, ◌≡◌, ◌↔◌, Bool, true, false, List, [], ◌∷◌, arith, ◌||◌}
use kadpeer.Order.{Order, nat_order, list_order, is_eq}

abbrev pub Text : Type 0
Text = List ℕ

abbrev pub text_order : Order Text
text_order = list_order nat_order

abbrev pub text_eq : Text → Text → Bool
text_eq a b = is_eq (text_order.cmp a b)

abbrev pub is_empty {ℓ} : {A : Type ℓ} → List A → Bool
is_empty [] = true
is_empty (x ∷ xs) = false

-- Whether a text is among others.
unfoldable pub contains : Text → List Text → Bool
contains t [] = false
contains t (x ∷ xs) = text_eq t x || contains t xs

pub text_eq_iff : (a b : Text) → (text_eq a b ≡ true) ↔ (a ≡ b)
text_eq_iff a b = ground (arith, text_order.cmp_eq a b, text_order.cmp_refl b)

-- `c_str()` where it is read up to its end: the bytes before the first zero.
unfoldable pub c_str : Text → Text
c_str [] = []
c_str (zero ∷ t) = []
c_str (suc b ∷ t) = suc b ∷ c_str t
