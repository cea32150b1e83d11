-- ===== src/RoutingTable/Entries.antt =====
-- The entries that `ForceKAcceptNewPeer` (src/kademlia/kadroutingtable.cpp) sorts, and the first of them.
use kadpeer.Prelude.{
  ℕ, zero, suc, ◌+◌, ◌≡◌, refl, Bool, true, List, [], ◌∷◌, some, arith, if◌then◌else◌, length, drop,
  inl, inr, Bool-cases, All,
}
use kadpeer.KadId.{KadId, BigInt}
use kadpeer.Contact.{Contact, equals}
use kadpeer.KBucket.Erase.{has_id}
use kadpeer.RoutingTable.Buckets.{
  insert_sorted, sort, compare_distance, compare_time, compare_score, distance_scores,
  add_time_score, time_scores, first_entry, get_least_useful_contact,
}

module _ {ℓ κ} {A : Type ℓ} (P : A → Type κ) (less : A → A → Bool) where
  insert_sorted-All : (x : A) (xs : List A) → P x → All P xs → All P (insert_sorted less x xs)
  unfolding insert_sorted
  insert_sorted-All x [] p h = (p, tt)
  insert_sorted-All x (y ∷ ys) p h = elim (Bool-cases (less y x)) [
    | inl e ↦ rw e (h.0, insert_sorted-All x ys p h.1)
    | inr e ↦ rw e (p, h)
  ]

  pub sort-All : (xs : List A) → All P xs → All P (sort less xs)
  unfolding sort
  sort-All [] h = tt
  sort-All (x ∷ xs) h = insert_sorted-All x (sort less xs) h.0 (sort-All xs h.1)

module _ {ℓ} {A : Type ℓ} (less : A → A → Bool) where
  length-insert_sorted : (x : A) (xs : List A) → length (insert_sorted less x xs) ≡ suc (length xs)
  unfolding insert_sorted
  length-insert_sorted x [] = refl
  length-insert_sorted x (y ∷ ys) = ground (arith, length-insert_sorted x ys)

  pub length-sort : (xs : List A) → length (sort less xs) ≡ length xs
  unfolding sort
  length-sort [] = refl
  length-sort (x ∷ xs) = omega (arith, length-insert_sorted x (sort less xs), length-sort xs)

pub drop-All {ℓ κ} :
    {A : Type ℓ} (P : A → Type κ) (n : ℕ) (xs : List A) → All P xs → All P (drop n xs)
drop-All P zero xs h = h
drop-All P (suc n) [] h = tt
drop-All P (suc n) (x ∷ xs) h = drop-All P n xs h.1

-- The contact is one of the list, by its identifier.
abbrev pub Within : List Contact → Contact → Type 0
Within cs c = has_id c.node_id cs ≡ true

abbrev WithinEntry : List Contact → Contact × ℕ → Type 0
WithinEntry cs e = Within cs e.0

Within-cons : (x : Contact) (cs ds : List Contact) → All (Within cs) ds → All (Within (x ∷ cs)) ds
unfolding has_id
Within-cons x cs [] h = tt
Within-cons x cs (d ∷ ds) h = (ground (arith, h.0), Within-cons x cs ds h.1)

pub All-Within : (cs : List Contact) → All (Within cs) cs
unfolding has_id
All-Within [] = tt
All-Within (c ∷ cs) = (ground arith, Within-cons c cs cs (All-Within cs))

module _ (cs : List Contact) where
  distance_scores-All :
      (d : ℕ) (l : List Contact) → All (Within cs) l → All (WithinEntry cs) (distance_scores d l)
  unfolding distance_scores
  distance_scores-All d [] h = tt
  distance_scores-All d (c ∷ l) h = (h.0, distance_scores-All (d + 1) l h.1)

  add_time_score-All :
      (c : Contact) (t : ℕ) (es : List (Contact × ℕ))
      → All (WithinEntry cs) es
      → All (WithinEntry cs) (add_time_score c t es).0
  unfolding add_time_score
  add_time_score-All c t [] h = tt
  add_time_score-All c t ((e, score) ∷ es) h =
      (h.0, add_time_score-All c (if equals c e then t + 1 else t) es h.1)

  time_scores-All :
      (t : ℕ) (l : List Contact) (es : List (Contact × ℕ))
      → All (WithinEntry cs) es
      → All (WithinEntry cs) (time_scores t l es)
  unfolding time_scores
  time_scores-All t [] es h = h
  time_scores-All t (c ∷ l) es h =
      time_scores-All (add_time_score c t es).1 l (add_time_score c t es).0
        (add_time_score-All c t es h)

  first_entry-Within :
      (es : List (Contact × ℕ)) (c : Contact)
      → All (WithinEntry cs) es
      → first_entry es ≡ some c
      → Within cs c
  first_entry-Within [] c h e = cc
  first_entry-Within ((d, score) ∷ es) c h e = let same : d ≡ c = ground arith in rw (← same) h.0

  -- The least useful contact is one of the candidates.
  pub get_least_useful_contact-Within :
      (bi : BigInt) (fresh_id holder_id : KadId) (l : List Contact) (c : Contact)
      → All (Within cs) l
      → get_least_useful_contact bi fresh_id holder_id l ≡ some c
      → Within cs c
  unfolding get_least_useful_contact
  get_least_useful_contact-Within bi fresh_id holder_id l c h e =
      let by_distance = sort (compare_distance bi fresh_id holder_id) l in
      let scores = distance_scores 1 by_distance in
      let w = sort-All (Within cs) (compare_distance bi fresh_id holder_id) l h in
      first_entry-Within (sort compare_score (time_scores 1 (sort compare_time by_distance) scores))
        c
        (sort-All (WithinEntry cs) compare_score
          (time_scores 1 (sort compare_time by_distance) scores)
          (time_scores-All 1 (sort compare_time by_distance) scores
            (distance_scores-All 1 by_distance w)))
        e
