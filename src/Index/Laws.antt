-- ===== src/Index/Laws.antt =====
-- The laws of the ordered containers: each operation keeps the order, and what `find` sees after it.
use kadpeer.Prelude.{
  ◌≡◌, refl, Bool, true, List, [], ◌∷◌, none, some, arith, if◌then◌else◌, inl, inr, Option-cases,
}
use kadpeer.Order.{Order, is_eq}
use kadpeer.Index.{remove_if, is_some, has_key, find, insert, replace, Above, IsIndex}
use Prim.Native.Nat.{Ordering}

module _ {ℓ κ} {K : Type ℓ} {V : Type κ} (o : Order K) (key : V → K) where
  Above-trans :
      (j k : K) (xs : List V) → o.cmp j k ≡ Ordering.lt → Above o key k xs → Above o key j xs
  Above-trans j k [] h a = tt
  Above-trans j k (x ∷ xs) h a = (o.cmp_trans j k (key x) h a.0, Above-trans j k xs h a.1)

  Above-insert :
      (k : K) (v : V) (xs : List V)
      → o.cmp k (key v) ≡ Ordering.lt
      → Above o key k xs
      → Above o key k (insert o key v xs)
  unfolding insert
  Above-insert k v [] h a = (h, tt)
  Above-insert k v (x ∷ xs) h a = ground (arith, Above-insert k v xs h a.1)

  Above-remove_if :
      (k : K) (p : V → Bool) (xs : List V) → Above o key k xs → Above o key k (remove_if p xs)
  unfolding remove_if
  Above-remove_if k p [] a = tt
  Above-remove_if k p (x ∷ xs) a = ground (arith, Above-remove_if k p xs a.1)

  pub insert-IsIndex : (v : V) (xs : List V) → IsIndex o key xs → IsIndex o key (insert o key v xs)
  unfolding insert
  insert-IsIndex v [] s = (tt, tt)
  insert-IsIndex v (x ∷ xs) s = ground (
    arith,
    insert-IsIndex v xs s.1,
    Above-trans (key v) (key x) xs,
    Above-insert (key x) v xs,
    o.cmp_gt (key v) (key x),
  )

  pub remove_if-IsIndex :
      (p : V → Bool) (xs : List V) → IsIndex o key xs → IsIndex o key (remove_if p xs)
  unfolding remove_if
  remove_if-IsIndex p [] s = tt
  remove_if-IsIndex p (x ∷ xs) s =
      ground (arith, remove_if-IsIndex p xs s.1, Above-remove_if (key x) p xs s.0)

  pub replace-IsIndex :
      (k : K) (v : V) (xs : List V) → IsIndex o key xs → IsIndex o key (replace o key k v xs).0
  unfolding replace
  replace-IsIndex k v xs s = ground (
    arith,
    remove_if-IsIndex (has_key o key k) xs s,
    insert-IsIndex v (remove_if (has_key o key k) xs),
  )

  -- No element lies at or below a bound of all.
  pub find-Above : (k : K) (xs : List V) → Above o key k xs → find o key k xs ≡ none
  unfolding find
  find-Above k [] a = refl
  find-Above k (x ∷ xs) a = ground (arith, find-Above k xs a.1)

  -- What is found has the key.
  pub find-key : (k : K) (v : V) (xs : List V) → find o key k xs ≡ some v → k ≡ key v
  unfolding find
  find-key k v [] h = cc
  find-key k v (x ∷ xs) h = ground (arith, o.cmp_eq k (key x), find-key k v xs)

  find_below :
      (j k : K) (xs : List V) → o.cmp j k ≡ Ordering.lt → Above o key k xs → find o key j xs ≡ none
  find_below j k xs h a = find-Above j xs (Above-trans j k xs h a)

  pub find-insert :
      (j : K) (v : V) (xs : List V)
      → IsIndex o key xs
      → find o key j (insert o key v xs) ≡ (
          if is_some (find o key j xs)
          then find o key j xs
          else if has_key o key j v
          then some v
          else none)
  unfolding find insert
  find-insert j v [] s = ground arith
  find-insert j v (x ∷ xs) s = ground (
    arith,
    find-insert j v xs s.1,
    o.cmp_eq j (key v),
    o.cmp_eq j (key x),
    o.cmp_eq (key v) (key x),
    o.cmp_refl (key x),
    o.cmp_lt (key v) (key x),
    find_below j (key x) xs,
  )

  pub find-remove_if :
      (j : K) (p : V → Bool) (xs : List V)
      → IsIndex o key xs
      → find o key j (remove_if p xs)
        ≡ (elim (find o key j xs) [ none ↦ none | some x ↦ if p x then none else some x ])
  unfolding find remove_if
  find-remove_if j p [] s = refl
  find-remove_if j p (x ∷ xs) s =
      ground (arith, find-remove_if j p xs s.1, o.cmp_eq j (key x), find-Above (key x) xs s.0)

  pub find-erase :
      (j k : K) (xs : List V)
      → IsIndex o key xs
      → find o key j (remove_if (has_key o key k) xs)
        ≡ (if is_eq (o.cmp j k) then none else find o key j xs)
  find-erase j k xs s = elim (Option-cases (find o key j xs)) [
    | inl e ↦ ground (arith, find-remove_if j (has_key o key k) xs s)
    | inr (x, e) ↦ ground (
      arith,
      find-remove_if j (has_key o key k) xs s,
      find-key j x xs e,
      o.cmp_eq j k,
      o.cmp_eq k (key x),
      o.cmp_refl k,
    )
  ]

  -- Which key holds what after a successful `replace`.
  pub find-replace :
      (j k : K) (v : V) (xs : List V)
      → IsIndex o key xs
      → (replace o key k v xs).1 ≡ true
      → find o key j (replace o key k v xs).0 ≡ (
          if has_key o key j v then some v else if is_eq (o.cmp j k) then none else find o key j xs)
  unfolding replace
  find-replace j k v xs s h = ground (
    arith,
    find-insert j v (remove_if (has_key o key k) xs) (remove_if-IsIndex (has_key o key k) xs s),
    find-erase j k xs s,
    o.cmp_eq j (key v),
  )

  -- With the key kept, `replace` succeeds.
  pub replace_same :
      (k : K) (v : V) (xs : List V) → IsIndex o key xs → key v ≡ k → (replace o key k v xs).1 ≡ true
  unfolding replace
  replace_same k v xs s e = ground (arith, find-erase (key v) k xs s, o.cmp_refl k)
