-- ===== src/Order.antt =====
-- Total orders as an interface: the order that `std::less` gives to the keys of the containers that
-- kadpeer keeps (numbers, texts, pairs of texts). A text is a `std::string`, read as its bytes.
use kadpeer.Prelude.{ℕ, ◌≡◌, refl, Bool, true, false, List, [], ◌∷◌, arith}
use Prim.Native.Nat.{compare, Ordering}

pub record Order {ℓ} (K : Type ℓ) : Type ℓ where
  pub cmp : K → K → Ordering
  pub cmp_refl : (a : K) → cmp a a ≡ Ordering.eq
  pub cmp_eq : (a b : K) → cmp a b ≡ Ordering.eq → a ≡ b
  pub cmp_lt : (a b : K) → cmp a b ≡ Ordering.lt → cmp b a ≡ Ordering.gt
  pub cmp_gt : (a b : K) → cmp a b ≡ Ordering.gt → cmp b a ≡ Ordering.lt
  pub cmp_trans :
      (a b c : K) → cmp a b ≡ Ordering.lt → cmp b c ≡ Ordering.lt → cmp a c ≡ Ordering.lt

abbrev pub is_eq : Ordering → Bool
is_eq Ordering.eq = true
is_eq _ = false

abbrev pub is_lt : Ordering → Bool
is_lt Ordering.lt = true
is_lt _ = false

-- Numbers.
pub nat_refl : (a : ℕ) → compare a a ≡ Ordering.eq
nat_refl a = ground arith

pub nat_eq : (a b : ℕ) → compare a b ≡ Ordering.eq → a ≡ b
nat_eq a b h = ground arith

pub nat_lt : (a b : ℕ) → compare a b ≡ Ordering.lt → compare b a ≡ Ordering.gt
nat_lt a b h = ground arith

pub nat_gt : (a b : ℕ) → compare a b ≡ Ordering.gt → compare b a ≡ Ordering.lt
nat_gt a b h = ground arith

pub nat_trans :
    (a b c : ℕ) → compare a b ≡ Ordering.lt → compare b c ≡ Ordering.lt → compare a c ≡ Ordering.lt
nat_trans a b c h k = ground arith

abbrev pub nat_order : Order ℕ
nat_order = record {
  cmp = compare;
  cmp_refl = nat_refl;
  cmp_eq = nat_eq;
  cmp_lt = nat_lt;
  cmp_gt = nat_gt;
  cmp_trans = nat_trans;
}

-- Two comparisons, the second where the first finds no difference.
abbrev pub and_then : Ordering → Ordering → Ordering
and_then Ordering.lt o = Ordering.lt
and_then Ordering.eq o = o
and_then Ordering.gt o = Ordering.gt

module _ {ℓ κ} {K : Type ℓ} {L : Type κ} (o : Order K) (q : Order L) where
  unfoldable pub pair_cmp : K × L → K × L → Ordering
  pair_cmp (a, b) (c, d) = and_then (o.cmp a c) (q.cmp b d)

  pub pair_refl : (x : K × L) → pair_cmp x x ≡ Ordering.eq
  unfolding pair_cmp
  pair_refl (a, b) = rw (o.cmp_refl a) (q.cmp_refl b)

  pub pair_eq : (x y : K × L) → pair_cmp x y ≡ Ordering.eq → x ≡ y
  unfolding pair_cmp
  pair_eq (a, b) (c, d) h = ground (arith, o.cmp_eq a c, q.cmp_eq b d)

  pub pair_lt : (x y : K × L) → pair_cmp x y ≡ Ordering.lt → pair_cmp y x ≡ Ordering.gt
  unfolding pair_cmp
  pair_lt (a, b) (c, d) h = ground (arith, o.cmp_lt a c, o.cmp_eq a c, o.cmp_refl c, q.cmp_lt b d)

  pub pair_gt : (x y : K × L) → pair_cmp x y ≡ Ordering.gt → pair_cmp y x ≡ Ordering.lt
  unfolding pair_cmp
  pair_gt (a, b) (c, d) h = ground (arith, o.cmp_gt a c, o.cmp_eq a c, o.cmp_refl c, q.cmp_gt b d)

  pub pair_trans :
      (x y z : K × L)
      → pair_cmp x y ≡ Ordering.lt
      → pair_cmp y z ≡ Ordering.lt
      → pair_cmp x z ≡ Ordering.lt
  unfolding pair_cmp
  pair_trans (a, b) (c, d) (e, f) h k =
      ground (arith, o.cmp_trans a c e, o.cmp_eq a c, o.cmp_eq c e, q.cmp_trans b d f)

module _ {ℓ} {K : Type ℓ} (o : Order K) where
  unfoldable pub list_cmp : List K → List K → Ordering
  list_cmp [] [] = Ordering.eq
  list_cmp [] (y ∷ ys) = Ordering.lt
  list_cmp (x ∷ xs) [] = Ordering.gt
  list_cmp (x ∷ xs) (y ∷ ys) = and_then (o.cmp x y) (list_cmp xs ys)

  pub list_refl : (xs : List K) → list_cmp xs xs ≡ Ordering.eq
  unfolding list_cmp
  list_refl [] = refl
  list_refl (x ∷ xs) = rw (o.cmp_refl x) (list_refl xs)

  pub list_eq : (xs ys : List K) → list_cmp xs ys ≡ Ordering.eq → xs ≡ ys
  unfolding list_cmp
  list_eq [] [] h = refl
  list_eq [] (y ∷ ys) h = cc
  list_eq (x ∷ xs) [] h = cc
  list_eq (x ∷ xs) (y ∷ ys) h = ground (arith, o.cmp_eq x y, list_eq xs ys)

  pub list_lt : (xs ys : List K) → list_cmp xs ys ≡ Ordering.lt → list_cmp ys xs ≡ Ordering.gt
  unfolding list_cmp
  list_lt [] [] h = cc
  list_lt [] (y ∷ ys) h = refl
  list_lt (x ∷ xs) [] h = cc
  list_lt (x ∷ xs) (y ∷ ys) h =
      ground (arith, o.cmp_lt x y, o.cmp_eq x y, o.cmp_refl y, list_lt xs ys)

  pub list_gt : (xs ys : List K) → list_cmp xs ys ≡ Ordering.gt → list_cmp ys xs ≡ Ordering.lt
  unfolding list_cmp
  list_gt [] [] h = cc
  list_gt [] (y ∷ ys) h = cc
  list_gt (x ∷ xs) [] h = refl
  list_gt (x ∷ xs) (y ∷ ys) h =
      ground (arith, o.cmp_gt x y, o.cmp_eq x y, o.cmp_refl y, list_gt xs ys)

  pub list_trans :
      (xs ys zs : List K)
      → list_cmp xs ys ≡ Ordering.lt
      → list_cmp ys zs ≡ Ordering.lt
      → list_cmp xs zs ≡ Ordering.lt
  unfolding list_cmp
  list_trans [] [] zs h k = cc
  list_trans [] (y ∷ ys) [] h k = cc
  list_trans [] (y ∷ ys) (z ∷ zs) h k = refl
  list_trans (x ∷ xs) [] zs h k = cc
  list_trans (x ∷ xs) (y ∷ ys) [] h k = cc
  list_trans (x ∷ xs) (y ∷ ys) (z ∷ zs) h k =
      ground (arith, o.cmp_trans x y z, o.cmp_eq x y, o.cmp_eq y z, list_trans xs ys zs)

abbrev pub pair_order {ℓ κ} : {K : Type ℓ} {L : Type κ} → Order K → Order L → Order (K × L)
pair_order o q = record {
  cmp = pair_cmp o q;
  cmp_refl = pair_refl o q;
  cmp_eq = pair_eq o q;
  cmp_lt = pair_lt o q;
  cmp_gt = pair_gt o q;
  cmp_trans = pair_trans o q;
}

abbrev pub list_order {ℓ} : {K : Type ℓ} → Order K → Order (List K)
list_order o = record {
  cmp = list_cmp o;
  cmp_refl = list_refl o;
  cmp_eq = list_eq o;
  cmp_lt = list_lt o;
  cmp_gt = list_gt o;
  cmp_trans = list_trans o;
}
