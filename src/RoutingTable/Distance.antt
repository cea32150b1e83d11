-- ===== src/RoutingTable/Distance.antt =====
-- The orders by distance of src/kademlia/kadroutingtable.cpp: the sorted contacts, and how many of them
-- `FindCloseNodes` returns.
use mathlib.Core.List.{Perm, append-nil}
use mathlib.Core.List.Perm
use kadpeer.Prelude.{
  ℕ, suc, ◌+◌, ◌≡◌, refl, true, false, List, [], ◌∷◌, ◌++◌, ◌==◌, length, arith, inl, inr, ◌⊎◌,
  ◌||◌, subst,
}
use Prim.Native.Nat.{Ordering}
use kadpeer.Order.{nat_order}
use kadpeer.Index.{insert, IsIndex}
use kadpeer.Index.Laws.{insert-IsIndex}
use kadpeer.KadId.{KadId, BigInt, distance}
use kadpeer.KadId.Laws.{distance-injective}
use kadpeer.Contact.{Contact}
use kadpeer.KBucket.Erase.{has_id, IsDistinct}
use kadpeer.RoutingTable.Nearest.{by_distance, sort_contacts_by_distance}

Ordering-cases : (x : Ordering) → (x ≡ Ordering.lt) ⊎ ((x ≡ Ordering.eq) ⊎ (x ≡ Ordering.gt))
Ordering-cases Ordering.lt = inl refl
Ordering-cases Ordering.eq = inr (inl refl)
Ordering-cases Ordering.gt = inr (inr refl)

Perm-middle {ℓ} : {A : Type ℓ} (x : A) (xs ys : List A) → Perm (xs ++ (x ∷ ys)) (x ∷ (xs ++ ys))
Perm-middle x [] ys = Perm.refl (x ∷ ys)
Perm-middle x (y ∷ xs) ys =
    Perm.trans (Perm.cons y (Perm-middle x xs ys)) (Perm.swap x y (xs ++ ys))

module _ (bi : BigInt) (key : KadId) where
  -- The distance of a contact
  abbrev pub away : Contact → ℕ
  away c = distance bi c.node_id key

  same_place :
      (c d : Contact)
      → nat_order.cmp (away c) (away d) ≡ Ordering.eq
      → (c.node_id == d.node_id) ≡ true
  same_place c d e =
      ground
        (arith, distance-injective bi c.node_id d.node_id key, nat_order.cmp_eq (away c) (away d) e)

  insert-Perm :
      (c : Contact) (cs : List Contact)
      → has_id c.node_id cs ≡ false
      → Perm (insert nat_order away c cs) (c ∷ cs)
  unfolding insert has_id
  insert-Perm c [] h = Perm.refl (c ∷ [])
  insert-Perm c (d ∷ ds) h = elim (Ordering-cases (nat_order.cmp (away c) (away d))) [
    | inl e ↦ rw (insert, e) (Perm.refl (c ∷ d ∷ ds))
    | inr (inl e) ↦ absurd (ground (arith, same_place c d e))
    | inr (inr e) ↦
        rw (insert, e)
          (Perm.trans (Perm.cons d (insert-Perm c ds (ground arith))) (Perm.swap c d ds))
  ]

  has_id-insert :
      (j : KadId) (c : Contact) (cs : List Contact)
      → has_id c.node_id cs ≡ false
      → has_id j (insert nat_order away c cs) ≡ (c.node_id == j || has_id j cs)
  unfolding insert has_id
  has_id-insert j c [] h = ground arith
  has_id-insert j c (d ∷ ds) h = ground (arith, has_id-insert j c ds, same_place c d)

  -- No identifier of the first list is in the second.
  abbrev Apart : List Contact → List Contact → Type 0
  Apart [] acc = Unit {0}
  Apart (c ∷ cs) acc = (has_id c.node_id acc ≡ false) × Apart cs acc

  Apart-insert :
      (c : Contact) (cs acc : List Contact)
      → has_id c.node_id cs ≡ false
      → has_id c.node_id acc ≡ false
      → Apart cs acc
      → Apart cs (insert nat_order away c acc)
  unfolding has_id
  Apart-insert c [] acc h k a = tt
  Apart-insert c (d ∷ ds) acc h k a =
      ground (arith, has_id-insert d.node_id c acc k, Apart-insert c ds acc)

  Apart-nil : (cs : List Contact) → Apart cs []
  unfolding has_id
  Apart-nil [] = tt
  Apart-nil (c ∷ cs) = (refl, Apart-nil cs)

  by_distance-Perm :
      (cs acc : List Contact)
      → IsDistinct cs
      → Apart cs acc
      → Perm (by_distance bi key (λ (c : Contact). c.node_id) cs acc) (cs ++ acc)
  unfolding by_distance
  by_distance-Perm [] acc d a = Perm.refl acc
  by_distance-Perm (c ∷ cs) acc d a =
      Perm.trans
        (by_distance-Perm cs (insert nat_order away c acc) d.1 (Apart-insert c cs acc d.0 a.0 a.1))
        (Perm.trans (Perm.append_left cs (insert-Perm c acc a.0)) (Perm-middle c cs acc))

  length-insert :
      (c : Contact) (cs : List Contact)
      → has_id c.node_id cs ≡ false
      → length (insert nat_order away c cs) ≡ suc (length cs)
  unfolding insert has_id
  length-insert c [] h = refl
  length-insert c (d ∷ ds) h = ground (arith, length-insert c ds, same_place c d)

  length-by_distance :
      (cs acc : List Contact)
      → IsDistinct cs
      → Apart cs acc
      → length (by_distance bi key (λ (c : Contact). c.node_id) cs acc) ≡ length cs + length acc
  unfolding by_distance
  length-by_distance [] acc d a = omega arith
  length-by_distance (c ∷ cs) acc d a = omega (
    arith,
    length-by_distance cs (insert nat_order away c acc) d.1 (Apart-insert c cs acc d.0 a.0 a.1),
    length-insert c acc a.0,
  )

  by_distance-IsIndex :
      (cs acc : List Contact)
      → IsIndex nat_order away acc
      → IsIndex nat_order away (by_distance bi key (λ (c : Contact). c.node_id) cs acc)
  unfolding by_distance
  by_distance-IsIndex [] acc v = v
  by_distance-IsIndex (c ∷ cs) acc v =
      by_distance-IsIndex cs (insert nat_order away c acc) (insert-IsIndex nat_order away c acc v)

  -- `SortContactsByDistance` of contacts with distinct identifiers returns 0; it loses none of them,
  -- and leaves them in the order of their distances.
  pub sort_contacts_by_distance_lem :
      (cs : List Contact)
      → IsDistinct cs
      → ((sort_contacts_by_distance bi key cs).1 ≡ true)
        × Perm (sort_contacts_by_distance bi key cs).0 cs
        × IsIndex nat_order away (sort_contacts_by_distance bi key cs).0
  unfolding sort_contacts_by_distance
  sort_contacts_by_distance_lem cs d = (
    ground (arith, length-by_distance cs [] d (Apart-nil cs)),
    subst (λ l. Perm (by_distance bi key (λ (c : Contact). c.node_id) cs []) l) (append-nil cs)
        (by_distance-Perm cs [] d (Apart-nil cs)),
    by_distance-IsIndex cs [] tt,
  )
