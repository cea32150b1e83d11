-- ===== src/Tests/Tables.antt =====
-- The theorems on routing tables at concrete tables.
use mathlib.Core.List.{Perm}
use kadpeer.Prelude.{
  ◌≤◌, ◌≡◌, ◌⊎◌, refl, true, List, [], ◌∷◌, none, some, arith, ◌==◌, if◌then◌else◌, length,
}
use kadpeer.Prelude.Int.{ℤ, pos}
use kadpeer.Contact.{Contact}
use kadpeer.KBucket
use kadpeer.Outcome.{done, ◌>>=◌}
use kadpeer.RoutingTable.{RoutingTable, init, get_contact, remove_contact}
use kadpeer.RoutingTable.Buckets.{add_contact, split_kbucket}
use kadpeer.RoutingTable.Lookup.{IsTable, Owner}
use kadpeer.RoutingTable.Contents.{found, get_contact-found}
use kadpeer.RoutingTable.Tile.{init-IsTable}
use kadpeer.RoutingTable.Add.{split_kbucket-get_contact}
use kadpeer.Order.{nat_order}
use kadpeer.Index.{IsIndex}
use kadpeer.KBucket.Erase.{has_id}
use kadpeer.RoutingTable.Nearest.{find_close_nodes, sort_contacts_by_distance}
use kadpeer.RoutingTable.Distance.{away, sort_contacts_by_distance_lem}
use kadpeer.RoutingTable.Close.{find_close_nodes-length}
use kadpeer.RoutingTable.Membership.{
  add_contact-get_contact, add_contact-displaces, remove_contact-get_contact,
}
use kadpeer.Tests.Numbers.{numbers, contact_of}

-- A new table of the identifiers below 256, for four contacts a bucket
abbrev table : RoutingTable
table = init 0 255 9 4

abbrev table-IsTable : IsTable 0 table
table-IsTable = init-IsTable 0 255 9 4 (omega arith)

init-IsTable_example : IsTable 0 (init 0 255 9 4)
init-IsTable_example = init-IsTable 0 255 9 4 (omega arith)

get_contact-found_example : get_contact 5 table ≡ done (found 5 table.k_buckets)
unfolding init
get_contact-found_example = get_contact-found 0 table 5 table-IsTable (omega arith) (omega arith)

add_contact-get_contact_example :
    (t' : RoutingTable) × (code : ℤ) × (add_contact numbers 77 9 (contact_of 5) table
      ≡ done (t', code))
    × IsTable 0 t'
    × (((code ≡ pos 0) × (get_contact 5 t' ≡ done (some (contact_of 5))))
        ⊎ ((code ≡ pos 2) × (get_contact 6 t' ≡ get_contact 6 table)))
unfolding init
add_contact-get_contact_example =
    add_contact-get_contact numbers 77 0 (contact_of 5) 8 table 6 table-IsTable (omega arith)
      (omega arith) (omega arith) (omega arith) (omega arith) (omega arith) (omega arith)

add_contact-displaces_example :
    (t' : RoutingTable) × (code : ℤ) × (add_contact numbers 77 9 (contact_of 5) table
      ≡ done (t', code))
    × ((get_contact 6 t' ≡ get_contact 6 table)
        ⊎ (get_contact 6 t' ≡ done none) × (get_contact 7 t' ≡ get_contact 7 table))
unfolding init
add_contact-displaces_example =
    add_contact-displaces numbers 77 0 (contact_of 5) 8 table 6 7 table-IsTable (omega arith)
      (omega arith) (omega arith) (omega arith) (omega arith) (omega arith) (omega arith)
      (omega arith) (omega arith) (omega arith) (omega arith) (omega arith)

remove_contact-get_contact_example :
    (remove_contact 5 table >>= get_contact 6) ≡ (if 6 == 5 then done none else get_contact 6 table)
unfolding init
remove_contact-get_contact_example =
    remove_contact-get_contact 0 table table-IsTable 5 (omega arith) (omega arith) 6 (omega arith)
      (omega arith)

-- The only bucket serves 5.
abbrev table_owner : Owner 0 5 4 table.k_buckets
unfolding init KBucket.init
table_owner = record {
  index = 0;
  bucket = KBucket.init 0 255 4;
  at = refl;
  below = omega arith;
  tile = table-IsTable.tiles.0;
  low = omega arith;
  high = omega arith;
}

split_kbucket-get_contact_example : (split_kbucket 0 table >>= get_contact 6) ≡ get_contact 6 table
unfolding init KBucket.init
split_kbucket-get_contact_example =
    split_kbucket-get_contact 0 table table-IsTable 5 table_owner (omega arith) (omega arith) 6
      (omega arith) (omega arith)

find_close_nodes-length_example :
    (r : List Contact) × (find_close_nodes numbers 6 (pos 2) (contact_of 7 ∷ []) table [] ≡ done r)
    × (length r ≤ 2)
unfolding init
find_close_nodes-length_example =
    find_close_nodes-length numbers 6 2 (contact_of 7 ∷ []) 0 table table-IsTable (omega arith)
      (omega arith) (omega arith) (omega arith)

-- Two contacts, which the distance to 6 orders the other way round.
abbrev pair : List Contact
pair = contact_of 5 ∷ contact_of 7 ∷ []

sort_contacts_by_distance_lem_example :
    ((sort_contacts_by_distance numbers 6 pair).1 ≡ true)
    × Perm (sort_contacts_by_distance numbers 6 pair).0 pair
    × IsIndex nat_order (away numbers 6) (sort_contacts_by_distance numbers 6 pair).0
unfolding has_id
sort_contacts_by_distance_lem_example =
    sort_contacts_by_distance_lem numbers 6 pair (refl, (refl, tt))
