-- ===== src/RoutingTable/Added.antt =====
-- `AddContact` of src/kademlia/kadroutingtable.cpp on a table that is in order: how many calls of itself
-- it needs, and what the table holds after it.
use kadpeer.Prelude.{
  ℕ, zero, suc, ◌+◌, ◌≤◌, ◌<◌, ◌≡◌, refl, ap, ◌≢◌, true, false, List, [], ◌∷◌, some, arith, ltb,
  get_elem?, set, length, inl, inr, ◌⊎◌, Bool-cases, ◌∙◌,
}
use kadpeer.Prelude.Int.{ℤ, pos}
use kadpeer.Word.{short_index-small}
use kadpeer.KadId.{KadId, BigInt}
use kadpeer.Contact.{Contact}
use kadpeer.KBucket.{KBucket, key_in_range, find_contact, succeed, full, fail}
use kadpeer.KBucket
use kadpeer.KBucket.Add
use kadpeer.KBucket.Erase.{has_id, without, find-without}
use kadpeer.Outcome.{Outcome, done, ◌>>=◌}
use kadpeer.RoutingTable.{RoutingTable, kbucket_index, set_bucket}
use kadpeer.RoutingTable.Buckets.{halves, split_kbucket, add_at, after_bucket, add_contact}
use kadpeer.RoutingTable.Lookup.{IsTable, Owner, low_at, kbucket_index-Owner}
use kadpeer.RoutingTable.Contents.{found, length-replace_by_two}
use kadpeer.RoutingTable.Tile.{
  add_contact-IsTile, set_bucket-IsTable, found-set_bucket, set_bucket-others, set_bucket-same,
}
use kadpeer.RoutingTable.Force.{Answer, refuse_or_force-Answer}
use kadpeer.RoutingTable.Crowd.{full_is_wide, IsNarrow, halves-IsNarrow, split_owner}
use kadpeer.RoutingTable.Add.{
  split_of, split_kbucket-at, halves_of, split_of-IsTable, split_of-found,
}

set_same {ℓ} :
    {A : Type ℓ} (xs : List A) (i : ℕ) (x : A) → get_elem? xs i ≡ some x → set xs i x ≡ xs
set_same [] i x g = refl
set_same (y ∷ xs) zero x g = ground arith
set_same (y ∷ xs) (suc i) x g = ap (λ l. y ∷ l) (set_same xs i x g)

Nat-cases : (n : ℕ) → (n ≡ 0) ⊎ ((m : ℕ) × (n ≡ suc m))
Nat-cases zero = inl refl
Nat-cases (suc m) = inr (m, refl)

-- An answer for a table that holds the same contacts.
Answer-same :
    (floor : ℕ) (c : Contact) (t t' : RoutingTable) (r : Outcome (RoutingTable × ℤ))
    → t'.k ≡ t.k
    → t'.address_space_upper_address ≡ t.address_space_upper_address
    → ((j : KadId) → floor ≤ j → found j t'.k_buckets ≡ found j t.k_buckets)
    → Answer floor c t' r
    → Answer floor c t r
Answer-same floor c t t' r ek eu same a = record {
  table = a.table;
  code = a.code;
  returns = a.returns;
  in_order = a.in_order;
  codes = a.codes;
  taken = a.taken;
  refused = λ e j l. a.refused e j l ∙ same j l;
  others = λ j l n. elim (a.others j l n) [ inl e ↦ inl (e ∙ same j l) | inr e ↦ inr e ];
  displaced = a.displaced;
  kept = λ j l n m. a.kept j l n m ∙ same j l;
  same_k = a.same_k ∙ ek;
  same_upper = a.same_upper ∙ eu;
}

module _ (floor : ℕ) (c : Contact) (t : RoutingTable) (v : IsTable floor t)
    (o : Owner floor c.node_id t.k t.k_buckets) (l : floor ≤ c.node_id) where
  -- The bucket with the contact in front.
  abbrev front : KBucket
  front = record o.bucket { contacts = c ∷ without c.node_id o.bucket.contacts }

  front-find :
      (j : KadId) → j ≢ c.node_id → find_contact j front.contacts ≡ find_contact j o.bucket.contacts
  unfolding find_contact
  front-find j n =
      ground (arith, find-without j c.node_id o.bucket.contacts o.tile.valid.distinct, n)

  -- A bucket that takes the contact.
  taken-Answer :
      KBucket.add_contact c o.bucket ≡ (front, succeed)
      → Answer floor c t (done (set_bucket o.index front t, pos 0))
  unfolding find_contact
  taken-Answer e = record {
    table = set_bucket o.index front t;
    code = pos 0;
    returns = refl;
    in_order =
        set_bucket-IsTable floor t v c.node_id o front
          (ground (
            arith,
            e,
            add_contact-IsTile t.k (low_at floor t.k_buckets o.index) o.bucket o.tile c o.low
                o.high,
          ))
          refl;
    codes = inl refl;
    taken = λ z. found-set_bucket floor t v c.node_id o front refl l ∙ ground arith;
    refused = λ z. cc;
    others =
        λ j jl n. set_bucket-others floor t v c.node_id o front refl j jl (inl (front-find j n));
    displaced = c.node_id;
    kept = λ j jl n m. set_bucket-same floor t v c.node_id o front refl j jl (front-find j n);
    same_k = refl;
    same_upper = refl;
  }

module _ (bi : BigInt) (fresh_id : KadId) (floor : ℕ) (c : Contact) where
  -- The answers for buckets that are narrow for `n`.
  abbrev Answers : ℕ → Type 0
  Answers n =
      (t : RoutingTable)
      → IsTable floor t
      → floor ≤ c.node_id
      → c.node_id ≤ t.address_space_upper_address
      → 2 < t.k
      → (o : Owner floor c.node_id t.k t.k_buckets) → IsNarrow n o.bucket
      → length t.k_buckets + n ≤ 32768
      → Answer floor c t (add_contact bi fresh_id (suc n) c t)

  -- A full bucket that is split.
  split-Answer :
      (n : ℕ)
      → Answers n
      → (t : RoutingTable) → IsTable floor t
      → floor ≤ c.node_id
      → c.node_id ≤ t.address_space_upper_address
      → 2 < t.k
      → (o : Owner floor c.node_id t.k t.k_buckets) → IsNarrow (suc n) o.bucket
      → length t.k_buckets + suc n ≤ 32768
      → o.bucket.range_min + 3 ≤ o.bucket.range_max
      → Answer floor c t (split_kbucket o.index t >>= add_contact bi fresh_id (suc n) c)
  split-Answer n ih t v l h big o narrow room wide =
      let lr = halves t.k o.bucket in
      let few : length t.k_buckets < 32768 = omega (arith, room) in
      let s = halves_of floor t v c.node_id o wide few in
      let len = length-replace_by_two o.index lr.0 lr.1 o.bucket t.k_buckets o.at in
      let (o', side) =
        split_owner c.node_id t.k floor t.address_space_upper_address t.k_buckets o.index o.bucket
          lr.0 lr.1 v.tiles o.at s o.low o.high in
      let thin =
        halves-IsNarrow n t.k (low_at floor t.k_buckets o.index) o.bucket lr.0 lr.1 s narrow in
      let narrower : IsNarrow n o'.bucket = elim side [
        | inl e ↦ rw e thin.0
        | inr e ↦ rw e thin.1
      ] in
      rw (split_kbucket-at o.index o.bucket t o.at) (
        Answer-same floor c t (split_of o.index o.bucket t) _ refl refl
          (split_of-found floor t v c.node_id o wide few)
          (ih (split_of o.index o.bucket t) (split_of-IsTable floor t v c.node_id o wide few) l h
            big o' narrower (omega (arith, len, room))))

  add_contact-at :
      (n i : ℕ) (t : RoutingTable)
      → kbucket_index c.node_id t ≡ done i
      → i < 32768
      → add_contact bi fresh_id (suc n) c t
        ≡ add_at bi fresh_id (add_contact bi fresh_id n c) c t (some i)
  unfolding add_contact
  add_contact-at n i t e h = rw (e, short_index-small i h) refl

  add_at-step :
      (n : ℕ)
      → ((m : ℕ) → n ≡ suc m → Answers m)
      → (t : RoutingTable) → IsTable floor t
      → floor ≤ c.node_id
      → c.node_id ≤ t.address_space_upper_address
      → 2 < t.k
      → (o : Owner floor c.node_id t.k t.k_buckets) → IsNarrow n o.bucket
      → length t.k_buckets + n ≤ 32768
      → Answer floor c t (add_at bi fresh_id (add_contact bi fresh_id n c) c t (some o.index))
  unfolding add_at after_bucket
  add_at-step n ih t v l h big o narrow room =
      let lem = Add.add_contact_lem c o.bucket o.tile.valid in
      rw o.at (elim (Bool-cases (Add.refuses o.bucket c)) [
        | inr e ↦
            let took : KBucket.add_contact c o.bucket ≡ (front floor c t v o l, succeed) =
              rw (lem, e) refl in
            rw took (taken-Answer floor c t v o l took)
        | inl e ↦
            let kept : KBucket.add_contact c o.bucket ≡ (o.bucket, full) = rw (lem, e) refl in
            let at_k : length o.bucket.contacts ≡ t.k = ground (arith, e, o.tile.same_k) in
            let new : has_id c.node_id o.bucket.contacts ≡ false = ground (arith, e) in
            let large : ltb 2 t.k ≡ true = ground (arith, big) in
            rw (kept, set_same t.k_buckets o.index o.bucket o.at, large)
              (elim (Bool-cases (key_in_range o.bucket t.holder_id)) [
                | inr q ↦ rw q (refuse_or_force-Answer bi fresh_id floor c t v o l at_k)
                | inl q ↦
                    let wide =
                      full_is_wide t.k (low_at floor t.k_buckets o.index) o.bucket c o.tile at_k new
                        big o.low o.high in
                    rw q (elim (Nat-cases n) [
                      | inl z ↦ absurd (ground (arith, z, narrow, wide))
                      | inr (m, z) ↦ rw z (
                          split-Answer m (ih m z) t v l h big o (rw (← z) narrow)
                            (omega (arith, z, room)) wide)
                    ])
              ])
      ])

  add_contact-step : (n : ℕ) → ((m : ℕ) → n ≡ suc m → Answers m) → Answers n
  add_contact-step n ih t v l h big o narrow room =
      rw
        (add_contact-at n o.index t (kbucket_index-Owner floor t v c.node_id o h)
          (omega (arith, o.below, v.few)))
        (add_at-step n ih t v l h big o narrow room)

  pub add_contact-Answers : (n : ℕ) → Answers n
  add_contact-Answers zero = add_contact-step zero (λ m e. absurd (omega (arith, e)))
  add_contact-Answers (suc n) =
      add_contact-step (suc n)
        (λ m e. let same : n ≡ m = omega (arith, e) in rw (← same) (add_contact-Answers n))
