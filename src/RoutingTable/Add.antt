-- ===== src/RoutingTable/Add.antt =====
-- `SplitKbucket` of src/kademlia/kadroutingtable.cpp on a table that is in order, and what the table
-- holds after it.
use kadpeer.Prelude.{
  ℕ, ◌+◌, ◌≤◌, ◌<◌, ◌≡◌, refl, sym, ap, some, arith, if◌then◌else◌, get_elem?, length, ◌∙◌, ◌%◌,
}
use kadpeer.Word.{u16_mod}
use kadpeer.KadId.{KadId}
use kadpeer.KBucket.{KBucket, key_in_range}
use kadpeer.Outcome.{done, ◌>>=◌}
use kadpeer.RoutingTable.{RoutingTable, get_contact}
use kadpeer.RoutingTable.Buckets.{halves, replace_by_two, uppers_from, split_kbucket}
use kadpeer.RoutingTable.Lookup.{IsTable, Owner, low_at}
use kadpeer.RoutingTable.Split.{IsSplit, halves-IsSplit}
use kadpeer.RoutingTable.Contents.{
  found, get_contact-found, Tiles-replace_by_two, found-replace_by_two, length-replace_by_two,
}

-- What `SplitKbucket` leaves, for the bucket that it splits.
abbrev pub split_of : ℕ → KBucket → RoutingTable → RoutingTable
split_of index b t =
    let lr = halves t.k b in
    let buckets = replace_by_two index lr.0 lr.1 t.k_buckets in
    let next = (index + 1) % u16_mod in
    let holds = key_in_range lr.0 t.holder_id in
    record t {
      k_buckets = buckets;
      bucket_upper_address = uppers_from 0 buckets;
      bucket_of_holder = if holds then index else next;
      brother_bucket_of_holder = if holds then next else index;
    }

pub split_kbucket-at :
    (index : ℕ) (b : KBucket) (t : RoutingTable)
    → get_elem? t.k_buckets index ≡ some b
    → split_kbucket index t ≡ done (split_of index b t)
unfolding split_kbucket
split_kbucket-at index b t g = rw g refl

module _ (floor : ℕ) (t : RoutingTable) (v : IsTable floor t) (key : KadId)
    (o : Owner floor key t.k t.k_buckets) (wide : o.bucket.range_min + 3 ≤ o.bucket.range_max)
    (room : length t.k_buckets < 32768) where
  pub halves_of :
      IsSplit t.k
        (low_at floor t.k_buckets o.index)
        o.bucket
        (halves t.k o.bucket).0
        (halves t.k o.bucket).1
  halves_of = halves-IsSplit t.k (low_at floor t.k_buckets o.index) o.bucket o.tile wide

  -- `SplitKbucket` of a bucket that is wide enough keeps the table in order.
  pub split_of-IsTable : IsTable floor (split_of o.index o.bucket t)
  split_of-IsTable =
      let lr = halves t.k o.bucket in
      let len = length-replace_by_two o.index lr.0 lr.1 o.bucket t.k_buckets o.at in
      record {
        tiles =
            Tiles-replace_by_two t.k lr.0 lr.1 floor t.address_space_upper_address t.k_buckets
              o.index o.bucket v.tiles o.at halves_of;
        uppers = refl;
        few = omega (arith, len, room);
        holder = ground (arith, len, room, o.below);
      }

  -- It loses no contact, and no identifier changes the contact that stands for it.
  pub split_of-found :
      (j : KadId)
      → floor ≤ j
      → found j (split_of o.index o.bucket t).k_buckets ≡ found j t.k_buckets
  split_of-found j l =
      let lr = halves t.k o.bucket in
      found-replace_by_two t.k lr.0 lr.1 j floor t.address_space_upper_address t.k_buckets o.index
        o.bucket v.tiles o.at halves_of l

  -- After `SplitKbucket` of a bucket whose range is wide enough, `GetContact` finds what it found
  -- before, for every identifier of the table.
  pub split_kbucket-get_contact :
      (j : KadId)
      → floor ≤ j
      → j ≤ t.address_space_upper_address
      → (split_kbucket o.index t >>= get_contact j) ≡ get_contact j t
  split_kbucket-get_contact j l h = rw (split_kbucket-at o.index o.bucket t o.at) (
      get_contact-found floor (split_of o.index o.bucket t) j split_of-IsTable l h
      ∙ (ap done (split_of-found j l) ∙ sym (get_contact-found floor t j v l h)))
