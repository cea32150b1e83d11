-- ===== src/Sll.antt =====
-- The singly linked list of include/common/sll.hh, over a heap. An operation takes the heap and the
-- fields of the list object and returns both. The equality `==` of the elements is a parameter, and so
-- is the address that `new` returns. A failed `assert` ends the process and is `undefined` here. A loop
-- over the items takes the size of the list, and one more, as its fuel.
pub mod Chain
pub mod Copy
pub mod Aliased
pub mod Ends
pub mod History
pub mod Whole
pub mod Unlink
pub mod Remove
pub mod Splice
use kadpeer.Prelude.{
  ℕ, zero, suc, ◌+◌, ◌-◌, ◌%◌, ◌^◌, Bool, true, false, List, Option, some, ◌==◌, if◌then◌else◌,
}
use kadpeer.Outcome.{Outcome, done, undefined, out_of_fuel, ◌>>=◌}
use kadpeer.Heap.{Ptr, null, write, load, delete}

-- `sll<T>::item`: `_data` and `_next`
pub record Item {ℓ} (T : Type ℓ) : Type ℓ where
  pub elem : T
  pub next : Ptr

abbrev pub item {ℓ} : {T : Type ℓ} → T → Ptr → Item T
item e n = record { elem = e; next = n }

abbrev pub Heap {ℓ} : Type ℓ → Type ℓ
Heap T = List (Ptr × Option (Item T))

-- `_first`, `_last` and `_size`
pub record Sll : Type 0 where
  pub first : Ptr
  pub last : Ptr
  pub size : ℕ

-- The constructor `sll ()`.
abbrev pub new_sll : Sll
new_sll = record { first = null; last = null; size = 0 }

-- `_size++` and `_size--` on an `unsigned int`
abbrev pub increment : ℕ → ℕ
increment n = (n + 1) % 2 ^ 32

abbrev pub decrement : ℕ → ℕ
decrement n = (n + 2 ^ 32 - 1) % 2 ^ 32

-- A `const T &`: a variable of the caller, or the data of an item.
pub data Ref {ℓ} (T : Type ℓ) : Type ℓ where
  variable : T → Ref T
  data_of : Ptr → Ref T

-- Where the loop of `remove` stands.
pub record Removal {ℓ} (T : Type ℓ) : Type ℓ where
  pub heap : Heap T
  pub object : Sll
  pub cur : Ptr
  pub old : Ptr

module _ {ℓ} {T : Type ℓ} where
  unfoldable pub set_next : Heap T → Ptr → Ptr → Outcome (Heap T)
  set_next h p q = load h p >>= λ n. done (write h p (some (item n.elem q)))

  unfoldable pub deref : Heap T → Ref T → Outcome T
  deref h (variable e) = done e
  deref h (data_of p) = load h p >>= λ n. done n.elem

  unfoldable pub push_front : (Heap T → Ptr) → T → Heap T → Sll → Heap T × Sll
  push_front alloc e h l =
      let tmp = alloc h in
      (
        write h tmp (some (item e l.first)),
        record {
          first = tmp;
          last = if l.last == null then tmp else l.last;
          size = increment l.size;
        },
      )

  -- `if (_last) _last->_next = tmp;`
  unfoldable pub link_last : Heap T → Ptr → Ptr → Outcome (Heap T)
  link_last h l tmp = if l == null then done h else set_next h l tmp

  unfoldable pub appended : Ptr → Sll → Heap T → Outcome (Heap T × Sll)
  appended tmp l h = done (
    h,
    record {
      first = if l.first == null then tmp else l.first;
      last = tmp;
      size = increment l.size;
    },
  )

  unfoldable pub push_back : (Heap T → Ptr) → T → Heap T → Sll → Outcome (Heap T × Sll)
  push_back alloc e h l =
      let tmp = alloc h in
      link_last (write h tmp (some (item e null))) l.last tmp >>= appended tmp l

  -- The item after the first one becomes the first.
  unfoldable pub drop_first : Sll → Ptr → Heap T → Outcome (Heap T × Sll)
  drop_first l tmp h = done (
    h,
    record { first = tmp; last = if tmp == null then null else l.last; size = decrement l.size },
  )

  unfoldable pub delete_first : Heap T → Sll → Item T → Outcome (Heap T × Sll)
  delete_first h l n = delete h l.first >>= drop_first l n.next

  unfoldable pub pop_front : Heap T → Sll → Outcome (Heap T × Sll)
  pop_front h l = if l.first == null then done (h, l) else (load h l.first >>= delete_first h l)

  abbrev pub with_elem : T → Outcome (Heap T × Sll) → Outcome (T × Heap T × Sll)
  with_elem e r = r >>= λ s. done (e, s.0, s.1)

  unfoldable pub behead_item : Heap T → Sll → Item T → Outcome (T × Heap T × Sll)
  behead_item h l n = with_elem n.elem (delete_first h l n)

  unfoldable pub behead : Heap T → Sll → Outcome (T × Heap T × Sll)
  behead h l = if l.first == null then undefined else (load h l.first >>= behead_item h l)

  unfoldable pub clear_loop : ℕ → Heap T → Ptr → Outcome (Heap T)
  clear_loop zero h tmp = out_of_fuel
  clear_loop (suc f) h tmp = elim (tmp == null) [
    | true ↦ done h
    | false ↦ load h tmp >>= λ n. delete h tmp >>= λ g. clear_loop f g n.next
  ]

  unfoldable pub clear : Heap T → Sll → Outcome (Heap T × Sll)
  clear h l =
      if l.size == 0
      then done (h, l)
      else (clear_loop (suc l.size) h l.first >>= λ g. done (g, new_sll))

  -- `if ( _first == NULL ) _first = cur; if ( old != NULL ) old->_next = cur;`
  unfoldable pub copy_loop :
      (Heap T → Ptr) → ℕ → Heap T → Ptr → Ptr → Ptr → Outcome (Heap T × Ptr × Ptr)
  copy_loop alloc zero h first old tmp = out_of_fuel
  copy_loop alloc (suc f) h first old tmp = elim (tmp == null) [
    | true ↦ done (h, first, old)
    | false ↦ load h tmp >>= λ n.
        let cur = alloc h in
        link_last (write h cur (some (item n.elem null))) old cur >>= λ g.
        load g tmp >>= λ m. copy_loop alloc f g (if first == null then cur else first) cur m.next
  ]

  abbrev pub copied : ℕ → Heap T × Ptr × Ptr → Outcome (Heap T × Sll)
  copied n r = done (r.0, record { first = r.1; last = r.2; size = n })

  -- `copy`, which `operator =` and the copy constructor call, from another list.
  unfoldable pub copy : (Heap T → Ptr) → Heap T → Sll → Sll → Outcome (Heap T × Sll)
  copy alloc h l other = clear h l >>= λ s.
      copy_loop alloc (suc other.size) s.0 s.1.first null other.first >>= copied other.size

  -- `copy` where `list` is the object itself: `_size` and `list._size` are one field, and `tmp` is read
  -- before `clear`.
  unfoldable pub copy_self : (Heap T → Ptr) → Heap T → Sll → Outcome (Heap T × Sll)
  copy_self alloc h l =
      clear h l >>= λ s. copy_loop alloc (suc l.size) s.0 s.1.first null l.first >>= copied s.1.size

  -- The unlinking of `cur`, whose successor is `q`.
  unfoldable pub unlink : Removal T → Ptr → Outcome (Heap T)
  unlink r q = if r.cur == r.object.first then done r.heap else set_next r.heap r.old q

  -- `if ( old == NULL ) cur = _first; else cur = old->_next;`
  unfoldable pub after : Heap T → Ptr → Ptr → Outcome Ptr
  after h first old = if old == null then done first else (load h old >>= λ n. done n.next)

  unfoldable pub deleted : Removal T → Ptr → Heap T → Outcome (Removal T)
  deleted r q h =
      let first = if r.cur == r.object.first then q else r.object.first in
      let last = if r.cur == r.object.last then r.old else r.object.last in
      delete h r.cur >>= λ g. after g first r.old >>= λ cur. done record {
        heap = g;
        object = record { first = first; last = last; size = decrement r.object.size };
        cur = cur;
        old = r.old;
      }

  unfoldable pub advance : Removal T → Ptr → Removal T
  advance r q = record r { cur = q; old = r.cur }

  module _ (eq : T → T → Bool) where
    unfoldable pub is_in_loop : ℕ → Heap T → T → Ptr → Outcome Bool
    is_in_loop zero h e tmp = out_of_fuel
    is_in_loop (suc f) h e tmp = elim (tmp == null) [
      | true ↦ done false
      | false ↦ load h tmp >>= λ n. elim (eq n.elem e) [
        | true ↦ done true
        | false ↦ is_in_loop f h e n.next
      ]
    ]

    unfoldable pub is_in : T → Heap T → Sll → Outcome Bool
    is_in e h l = is_in_loop (suc l.size) h e l.first

    unfoldable pub remove_item : Removal T → Item T → T → Outcome (Removal T)
    remove_item r n e =
        if eq n.elem e then (unlink r n.next >>= deleted r n.next) else done (advance r n.next)

    -- The body of the loop of `remove`.
    unfoldable pub remove_step : Ref T → Removal T → Outcome (Removal T)
    remove_step e r = load r.heap r.cur >>= λ n. deref r.heap e >>= remove_item r n

    unfoldable pub remove_loop : ℕ → Ref T → Removal T → Outcome (Heap T × Sll)
    remove_loop zero e r = out_of_fuel
    remove_loop (suc f) e r = elim (r.cur == null) [
      | true ↦ done (r.heap, r.object)
      | false ↦ remove_step e r >>= remove_loop f e
    ]

    -- `remove ( const T & elem )`
    unfoldable pub remove : Ref T → Heap T → Sll → Outcome (Heap T × Sll)
    remove e h l =
        remove_loop (suc l.size) e (record { heap = h; object = l; cur = l.first; old = null })

    -- `remove ( iterator & i )`
    unfoldable pub remove_at : Ptr → Heap T → Sll → Outcome (Heap T × Sll)
    remove_at i h l = if i == null then undefined else remove (data_of i) h l
