-- ===== src/RoutingTable/Close.antt =====
-- `FindCloseNodes` of src/kademlia/kadroutingtable.cpp on a table that is in order: it stays within its
-- lists, and returns no more nodes than it is asked for.
use kadpeer.Prelude.{
  ℕ, ◌+◌, ◌%◌, ◌≤◌, ◌<◌, ◌≡◌, refl, false, List, [], ◌∷◌, ◌++◌, ◌==◌, length, length-append,
  length-take, drop, map, arith, Bool-cases, inl, inr,
}
use kadpeer.Prelude.Int.{pos}
use kadpeer.Order.{nat_order}
use kadpeer.Index.{insert}
use kadpeer.Word.{to_u16, u16_mod}
use kadpeer.KadId.{KadId, BigInt}
use kadpeer.Contact.{Contact}
use kadpeer.KBucket.{KBucket, get_contacts}
use kadpeer.KBucket.Collect.{take_contacts_lem, allowed}
use kadpeer.Outcome.{done}
use kadpeer.RoutingTable.{RoutingTable}
use kadpeer.RoutingTable.Buckets.{uppers_from}
use kadpeer.RoutingTable.Nearest.{
  by_distance, sort_contacts_by_distance, fill, fill_from, fill_all, find_close_nodes,
  sort_buckets_by_distance,
}
use kadpeer.RoutingTable.Buckets.{put_upper}
use kadpeer.RoutingTable.Lookup.{IsTable, owner_of, kbucket_index-Owner}
use kadpeer.RoutingTable.Force.{IsTile-at}

-- All indices of the entries lie below a bound.
abbrev EntriesBelow : ℕ → List (KadId × ℕ) → Type 0
EntriesBelow m [] = Unit {0}
EntriesBelow m (e ∷ es) = (e.1 < m) × EntriesBelow m es

insert-EntriesBelow :
    (m : ℕ) (f : KadId × ℕ → ℕ) (e : KadId × ℕ) (es : List (KadId × ℕ))
    → e.1 < m
    → EntriesBelow m es
    → EntriesBelow m (insert nat_order f e es)
unfolding insert
insert-EntriesBelow m f e [] h b = (h, tt)
insert-EntriesBelow m f e (d ∷ ds) h b = ground (arith, insert-EntriesBelow m f e ds h b.1)

put_upper-EntriesBelow :
    (m : ℕ) (e : KadId × ℕ) (es : List (KadId × ℕ))
    → e.1 < m
    → EntriesBelow m es
    → EntriesBelow m (put_upper e es)
unfolding put_upper
put_upper-EntriesBelow m e [] h b = (h, tt)
put_upper-EntriesBelow m e (d ∷ ds) h b = ground (arith, put_upper-EntriesBelow m e ds h b.1)

uppers_from-EntriesBelow :
    (m j : ℕ) (bs : List KBucket) → j + length bs ≤ m → EntriesBelow m (uppers_from j bs)
unfolding uppers_from
uppers_from-EntriesBelow m j [] h = tt
uppers_from-EntriesBelow m j (b ∷ bs) h =
    put_upper-EntriesBelow m (b.range_max, j % u16_mod) (uppers_from (j + 1) bs) (omega arith)
      (uppers_from-EntriesBelow m (j + 1) bs (omega arith))

abbrev AllBelow : ℕ → List ℕ → Type 0
AllBelow m [] = Unit {0}
AllBelow m (i ∷ is) = (i < m) × AllBelow m is

by_distance-EntriesBelow :
    (m : ℕ) (bi : BigInt) (key : KadId) (es acc : List (KadId × ℕ))
    → EntriesBelow m es
    → EntriesBelow m acc
    → EntriesBelow m (by_distance bi key (λ (e : KadId × ℕ). e.0) es acc)
unfolding by_distance
by_distance-EntriesBelow m bi key [] acc h k = k
by_distance-EntriesBelow m bi key (e ∷ es) acc h k =
    by_distance-EntriesBelow m bi key es _ h.1 (insert-EntriesBelow m _ e acc h.0 k)

map-AllBelow : (m : ℕ) (es : List (KadId × ℕ)) → EntriesBelow m es → AllBelow m (map (λ e. e.1) es)
map-AllBelow m [] h = tt
map-AllBelow m (e ∷ es) h = (h.0, map-AllBelow m es h.1)

drop-AllBelow : (m : ℕ) (is : List ℕ) → AllBelow m is → AllBelow m (drop 1 is)
drop-AllBelow m [] h = tt
drop-AllBelow m (i ∷ is) h = h.1

-- The inner loop stops at the count.
fill-length :
    (n : ℕ) (close cs : List Contact)
    → length close < n
    → (length (fill (pos n) close cs).0 ≤ n)
      × ((fill (pos n) close cs).1 ≡ false → length (fill (pos n) close cs).0 < n)
unfolding fill
fill-length n close [] h = (omega (arith, h), λ e. h)
fill-length n close (c ∷ cs) h =
    let len : length (close ++ (c ∷ [])) ≡ length close + 1 = length-append close (c ∷ []) in
    elim (Bool-cases (n == length (close ++ (c ∷ [])))) [
      | inl e ↦ rw e (ground (arith, len), λ z. cc)
      | inr e ↦ rw e (fill-length n (close ++ (c ∷ [])) cs (ground (arith, len, e)))
    ]

module _ (bi : BigInt) (key : KadId) (n : ℕ) (exclude : List Contact) (floor : ℕ) (t : RoutingTable)
    (v : IsTable floor t) where
  fill_from-length :
      (b : KBucket) (close : List Contact)
      → length close < n
      → (length (fill_from bi key (pos n) exclude t b close).0 ≤ n)
        × ((fill_from bi key (pos n) exclude t b close).1 ≡ false
            → length (fill_from bi key (pos n) exclude t b close).0 < n)
  fill_from-length b close h =
      let (contacts, ok) = sort_contacts_by_distance bi key (get_contacts t.k exclude [] b) in
      ground (arith, fill-length n close contacts h, h)

  fill_all-done :
      (indices : List ℕ) (close : List Contact)
      → AllBelow (length t.k_buckets) indices
      → length close < n
      → (r : List Contact) × (fill_all bi key (pos n) exclude t indices close ≡ done r)
        × (length r ≤ n)
  unfolding fill_all
  fill_all-done [] close a h = (close, refl, omega (arith, h))
  fill_all-done (index ∷ indices) close a h =
      let (b, m, tile) =
        IsTile-at t.k floor t.address_space_upper_address t.k_buckets index v.tiles a.0 in
      let (small, more) = fill_from-length b close h in
      elim (Bool-cases (fill_from bi key (pos n) exclude t b close).1) [
        | inl e ↦ rw (m, e) (_, refl, small)
        | inr e ↦ rw (m, e) (fill_all-done indices _ a.1 (more e))
      ]

  -- On a table in order `FindCloseNodes` of a key of the table returns at most `n` nodes, for a count
  -- `n` above 0 that fits an `unsigned short`.
  pub find_close_nodes-length :
      floor ≤ key
      → key ≤ t.address_space_upper_address
      → 0 < n
      → n < u16_mod
      → (r : List Contact) × (find_close_nodes bi key (pos n) exclude t [] ≡ done r)
        × (length r ≤ n)
  unfolding find_close_nodes get_contacts sort_buckets_by_distance
  find_close_nodes-length l h p w =
      let o = owner_of floor t v key l h in
      let first = get_contacts n exclude [] o.bucket in
      let count : to_u16 (pos n) ≡ n = omega (arith, w) in
      let indices = drop 1 (sort_buckets_by_distance bi key t) in
      let fits : length first ≤ n =
        rw (take_contacts_lem n exclude o.bucket.contacts)
          (omega (arith, length-take n (allowed exclude o.bucket.contacts))) in
      let m = length t.k_buckets in
      let inside : AllBelow (length t.k_buckets) indices =
        drop-AllBelow m (sort_buckets_by_distance bi key t) (
          map-AllBelow m _ (
            by_distance-EntriesBelow m bi key t.bucket_upper_address []
              (rw v.uppers (uppers_from-EntriesBelow m 0 t.k_buckets (omega arith))) tt)) in
      rw (kbucket_index-Owner floor t v key o h, o.at, count)
        (elim (Bool-cases (n == length first)) [
          | inl e ↦ rw e (first, refl, fits)
          | inr e ↦ rw e (fill_all-done indices first inside (ground (arith, e, fits)))
        ])
