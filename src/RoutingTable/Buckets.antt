-- ===== src/RoutingTable/Buckets.antt =====
-- The parts of `RoutingTable` (src/kademlia/kadroutingtable.cpp) that change the list of buckets:
-- `SplitKbucket`, `ForceKAcceptNewPeer` and `AddContact`.
use kadpeer.Prelude.{
  ℕ, zero, suc, ◌+◌, ◌-◌, ◌%◌, Bool, true, false, not, ◌&&◌, List, [], ◌∷◌, ◌++◌, Option, none,
  some, ltb, ◌==◌, if◌then◌else◌, length, take, drop,
}
use kadpeer.Prelude.Int.{ℤ, pos, negsuc, ltb_ℤ}
use kadpeer.Word.{u16_mod, short_index}
use kadpeer.KadId.{KadId, BigInt, split_range, closer_to_target}
use kadpeer.Contact.{Contact, equals}
use kadpeer.KBucket.{KBucket, KBucketExitCode, succeed, full, fail, key_in_range}
use kadpeer.KBucket
use kadpeer.Outcome.{Outcome, done, undefined, out_of_fuel, ◌>>=◌}
use kadpeer.RoutingTable.{RoutingTable, kbucket_index, bucket_at, set_bucket}

-- One turn of the loop of `SplitKbucket` over the contacts.
abbrev pub place : Contact → KBucket × KBucket → KBucket × KBucket
place c (left, right) =
    if key_in_range left c.node_id
    then ((KBucket.add_contact c left).0, right)
    else (left, (KBucket.add_contact c right).0)

-- The loop, which begins with the last contact.
unfoldable pub distribute : List Contact → KBucket × KBucket → KBucket × KBucket
distribute [] lr = lr
distribute (c ∷ cs) lr = place c (distribute cs lr)

-- An entry that is put before those after it were inserted: the entry of the same key, whose insertion
-- then has no effect, gives way.
unfoldable pub put_upper : KadId × ℕ → List (KadId × ℕ) → List (KadId × ℕ)
put_upper e [] = e ∷ []
put_upper e (d ∷ ds) =
    let rest = put_upper e ds in
    if ltb e.0 d.0 then e ∷ d ∷ ds else if e.0 == d.0 then e ∷ ds else d ∷ rest

-- The map of upper ends for buckets from the index `j`. The insertions go up from `j`, so that the
-- first of equal ends stays.
unfoldable pub uppers_from : ℕ → List KBucket → List (KadId × ℕ)
unfolding put_upper
uppers_from j [] = []
uppers_from j (b ∷ bs) = put_upper (b.range_max, j % u16_mod) (uppers_from (j + 1) bs)

-- The two buckets that take the place of `b`. The source gives the addresses of the two bounds to
-- `SplitRange` the other way round, so that the left range ends one above the middle and the right
-- one begins at it.
unfoldable pub halves : ℕ → KBucket → KBucket × KBucket
halves k b =
    let (range_max_left, range_min_right) = split_range b.range_min b.range_max in
    distribute (KBucket.get_contacts k [] [] b)
      (KBucket.init b.range_min range_max_left k, KBucket.init range_min_right b.range_max k)

-- `erase` at an index, and `insert` of two elements there
abbrev pub replace_by_two {ℓ} : {A : Type ℓ} → ℕ → A → A → List A → List A
replace_by_two i x y xs = take i xs ++ (x ∷ y ∷ drop (suc i) xs)

unfoldable pub split_kbucket : ℕ → RoutingTable → Outcome RoutingTable
split_kbucket index t = do
  b ← bucket_at index t
  let lr = halves t.k b
  let buckets = replace_by_two index lr.0 lr.1 t.k_buckets
  let next = (index + 1) % u16_mod
  let holds = key_in_range lr.0 t.holder_id
  done (record t {
    k_buckets = buckets;
    bucket_upper_address = uppers_from 0 buckets;
    bucket_of_holder = if holds then index else next;
    brother_bucket_of_holder = if holds then next else index;
  })

-- `std::list::sort`, which is stable: an element goes before the first that it is not above.
module _ {ℓ} {A : Type ℓ} (less : A → A → Bool) where
  unfoldable pub insert_sorted : A → List A → List A
  insert_sorted x [] = x ∷ []
  insert_sorted x (y ∷ ys) = if less y x then y ∷ insert_sorted x ys else x ∷ y ∷ ys

  unfoldable pub sort : List A → List A
  sort [] = []
  sort (x ∷ xs) = insert_sorted x (sort xs)

-- `compare_distance`. It compares with a default `KadID`, the hash of the time, here `fresh_id`.
abbrev pub compare_distance : BigInt → KadId → KadId → Contact → Contact → Bool
compare_distance bi fresh_id holder_id first second =
    if first.node_id == fresh_id
    then true
    else if second.node_id == fresh_id
    then false
    else closer_to_target bi first.node_id second.node_id holder_id

abbrev pub compare_time : Contact → Contact → Bool
compare_time first second = ltb_ℤ second.last_seen first.last_seen

-- `ForceKEntry`: a contact with its score
abbrev pub compare_score : Contact × ℕ → Contact × ℕ → Bool
compare_score first second = ltb second.1 first.1

-- The first loop of `get_least_useful_contact`: the scores by distance, from `d` on.
unfoldable pub distance_scores : ℕ → List Contact → List (Contact × ℕ)
distance_scores d [] = []
distance_scores d (c ∷ cs) = (c, d) ∷ distance_scores (d + 1) cs

-- Its inner loop: every entry that equals the contact gains `t`, which counts on.
unfoldable pub add_time_score : Contact → ℕ → List (Contact × ℕ) → List (Contact × ℕ) × ℕ
add_time_score c t [] = ([], t)
add_time_score c t ((e, score) ∷ es) =
    let hit = equals c e in
    let (rest, t') = add_time_score c (if hit then t + 1 else t) es in
    ((e, if hit then score + t else score) ∷ rest, t')

unfoldable pub time_scores : ℕ → List Contact → List (Contact × ℕ) → List (Contact × ℕ)
time_scores t [] es = es
time_scores t (c ∷ cs) es = let (es', t') = add_time_score c t es in time_scores t' cs es'

abbrev pub first_entry : List (Contact × ℕ) → Option Contact
first_entry [] = none
first_entry ((c, score) ∷ es) = some c

-- `get_least_useful_contact`; `none` where it returns false.
unfoldable pub get_least_useful_contact : BigInt → KadId → KadId → List Contact → Option Contact
get_least_useful_contact bi fresh_id holder_id l =
    let by_distance = sort (compare_distance bi fresh_id holder_id) l in
    let scores = distance_scores 1 by_distance in
    first_entry (sort compare_score (time_scores 1 (sort compare_time by_distance) scores))

-- The part of `ForceKAcceptNewPeer` behind `advance`: `rest` is what the iterator has before it.
unfoldable pub accept_after :
    BigInt → KadId → Contact → List Contact → RoutingTable → Outcome (RoutingTable × ℤ)
accept_after bi fresh_id new_contact [] t = done (t, pos 1)
accept_after bi fresh_id new_contact (c ∷ cs) t =
    if closer_to_target bi c.node_id new_contact.node_id t.holder_id
    then done (t, pos 1)
    else elim (get_least_useful_contact bi fresh_id t.holder_id (c ∷ cs)) [
      | none ↦ done (t, negsuc 0)
      | some least ↦ bucket_at t.brother_bucket_of_holder t >>= λ b. done (
        set_bucket t.brother_bucket_of_holder
            (KBucket.add_contact new_contact (KBucket.remove_contact least.node_id b)).0 t,
        pos 0,
      )
    ]

-- `ForceKAcceptNewPeer` for the difference `v`. To advance past the end of the list, or backwards
-- before its begin, is undefined.
unfoldable pub accept_at : BigInt → KadId → Contact → ℕ → RoutingTable → Outcome (RoutingTable × ℤ)
accept_at bi fresh_id new_contact v t = do
  brother ← bucket_at t.brother_bucket_of_holder t
  let candidates = KBucket.get_contacts t.k [] [] brother
  let sorted = sort (compare_distance bi fresh_id t.holder_id) candidates
  let rest = accept_after bi fresh_id new_contact (drop (v - 1) sorted) t
  if ltb (length sorted) (v - 1) then undefined else rest

unfoldable pub force_k_accept_new_peer :
    BigInt → KadId → Contact → RoutingTable → Outcome (RoutingTable × ℤ)
force_k_accept_new_peer bi fresh_id new_contact t = do
  holder_bucket ← bucket_at t.bucket_of_holder t
  let held = KBucket.size holder_bucket
  if held == t.k
      then done (t, pos 1)
      else if ltb t.k held
      then undefined
      else accept_at bi fresh_id new_contact (t.k - held) t

-- The cases of `AddContact` for a full bucket that is not split.
unfoldable pub refuse_or_force :
    BigInt → KadId → Contact → ℕ → RoutingTable → Outcome (RoutingTable × ℤ)
refuse_or_force bi fresh_id new_contact index t =
    if index == t.brother_bucket_of_holder
    then (force_k_accept_new_peer bi fresh_id new_contact t >>= λ r.
        done (r.0, elim r.1 [ pos n ↦ (if n == 0 then pos 0 else pos 2) | negsuc n ↦ pos 2 ]))
    else done (t, pos 2)

-- `AddContact` behind the call on the bucket; `again` is its call of itself.
unfoldable pub after_bucket :
    BigInt
    → KadId
    → (RoutingTable → Outcome (RoutingTable × ℤ))
    → Contact
    → ℕ
    → RoutingTable
    → KBucket × KBucketExitCode
    → Outcome (RoutingTable × ℤ)
after_bucket bi fresh_id again new_contact i t (b, succeed) = done (set_bucket i b t, pos 0)
after_bucket bi fresh_id again new_contact i t (b, full) =
    let t' = set_bucket i b t in
    if ltb 2 t.k && not (key_in_range b t.holder_id)
    then refuse_or_force bi fresh_id new_contact i t'
    else (split_kbucket i t' >>= again)
after_bucket bi fresh_id again new_contact i t (b, fail) = done (set_bucket i b t, negsuc 1)

-- `AddContact` from the test of the index on
unfoldable pub add_at :
    BigInt
    → KadId
    → (RoutingTable → Outcome (RoutingTable × ℤ))
    → Contact
    → RoutingTable
    → Option ℕ
    → Outcome (RoutingTable × ℤ)
add_at bi fresh_id again new_contact t none = done (t, pos 3)
add_at bi fresh_id again new_contact t (some i) = do
  b ← bucket_at i t
  after_bucket bi fresh_id again new_contact i t (KBucket.add_contact new_contact b)

-- `AddContact`, whose `short index` is negative for no bucket. Each split makes the call again, so
-- the recursion is on fuel.
unfoldable pub add_contact :
    BigInt → KadId → ℕ → Contact → RoutingTable → Outcome (RoutingTable × ℤ)
add_contact bi fresh_id zero new_contact t = out_of_fuel
add_contact bi fresh_id (suc fuel) new_contact t =
    let again = add_contact bi fresh_id fuel new_contact in
    kbucket_index new_contact.node_id t >>= λ index.
    add_at bi fresh_id again new_contact t (short_index index)
