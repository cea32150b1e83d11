-- ===== src/Sll/Copy.antt =====
-- `copy` of include/common/sll.hh, which `operator =` and the copy constructor call.
use kadpeer.Prelude.{
  ℕ, zero, suc, ◌+◌, ◌<◌, ◌^◌, ◌≡◌, ◌≢◌, refl, sym, ap, subst, ◌∙◌, none, some, List, [], ◌∷◌, ◌++◌,
  length, length-append, arith, inl, inr, Bool-cases,
}
use mathlib.Core.List.{append-nil, append_assoc}
use kadpeer.Heap.{Ptr, null, read, load-some, load-none, IsNew}
use kadpeer.Outcome.{Outcome, done, undefined}
use kadpeer.Sll.{item, Heap, Sll, copy_loop, copy, copy_self, appended, push_back}
use kadpeer.Sll.Chain.{
  Cells, has, elements, Chain, nil, cons, length-elements, IsList, Accounts, Accounts-refl,
  Accounts-trans, Leaves, frame, not_mem_of_none,
}
use kadpeer.Sll.Splice.{first-ne_null, front, Apart}
use kadpeer.Sll.Ends.{push_back-Leaves}
use kadpeer.Sll.Whole.{clear-Leaves}

module _ {ℓ} {T : Type ℓ} where
  cells_nil : (zs : Cells T) → elements zs ≡ [] → zs ≡ []
  cells_nil [] e = refl
  cells_nil (z ∷ zs) e = cc

  -- Another list's items stay while a list takes its memory from where nothing was.
  Apart-Accounts :
      {h g : Heap T} {stop p : Ptr} {xs ys zs : Cells T}
      → Chain h stop p ys
      → Apart ys xs
      → Accounts h xs g zs
      → Apart ys zs
  Apart-Accounts {zs} s apart u a i = elim (Bool-cases (has a zs)) [
    | inl j ↦ ground (arith, apart a, u.taken a, not_mem_of_none a s)
    | inr n ↦ n
  ]

  frame-Accounts :
      {h g : Heap T} {stop p : Ptr} {xs ys zs : Cells T}
      → Chain h stop p ys
      → Apart ys xs
      → Accounts h xs g zs
      → Chain g stop p ys
  frame-Accounts s apart u = frame s λ a i. u.same a (apart a i) (Apart-Accounts s apart u a i)

  -- The round of the loop is a `push_back` to the copy made so far.
  copy_loop-push_back :
      (alloc : Heap T → Ptr) (f n : ℕ) (h g : Heap T) (l : Sll) (first old tmp q r : Ptr) (d e : T)
      → tmp ≢ null
      → read h tmp ≡ some (item d q)
      → read g tmp ≡ some (item e r)
      → push_back alloc d h (record { first = first; last = old; size = n }) ≡ done (g, l)
      → copy_loop alloc (suc f) h first old tmp ≡ copy_loop alloc f g l.first l.last r
  unfolding copy_loop push_back appended
  copy_loop-push_back alloc f n h g l first old tmp q r d e ne here there pushed =
      ground (arith, load-some h tmp ne here, load-some g tmp ne there)

  copy_loop-end :
      (alloc : Heap T → Ptr) (f : ℕ) {h : Heap T} {first old : Ptr}
      → copy_loop alloc (suc f) h first old null ≡ done (h, first, old)
  unfolding copy_loop
  copy_loop-end alloc f = refl

  -- What the loop leaves, where the items `zs` were copied and `ys` are ahead.
  record Copies (h : Heap T) (zs : Cells T) (es : List T) (r : Outcome (Heap T × Ptr × Ptr))
      : Type ℓ where
    heap : Heap T
    first : Ptr
    old : Ptr
    cells : Cells T
    returns : r ≡ done (heap, first, old)
    is_list : IsList heap (record { first = first; last = old; size = length cells }) cells
    holds : elements cells ≡ es
    accounts : Accounts h zs heap cells

  copy_loop-Copies :
      {alloc : Heap T → Ptr} (f : ℕ) {h : Heap T} {first old tmp : Ptr} {zs ys : Cells T}
      → IsNew alloc
      → IsList h (record { first = first; last = old; size = length zs }) zs
      → Chain h null tmp ys
      → Apart ys zs
      → length ys < f
      → length zs + length ys < 2 ^ 32
      → Copies h zs (elements zs ++ elements ys) (copy_loop alloc f h first old tmp)
  copy_loop-Copies zero new is s apart fuel room = absurd (omega arith)
  copy_loop-Copies {alloc} (suc f) {h} {first} {old} {zs} new is nil apart fuel room = record {
    heap = h;
    first = first;
    old = old;
    cells = zs;
    returns = copy_loop-end alloc f;
    is_list = is;
    holds = sym (append-nil (elements zs));
    accounts = Accounts-refl;
  }
  copy_loop-Copies {alloc} (suc f) {h} {first} {old} {tmp} {zs} new is
        (cons {q} {e} {xs} ne r out s) apart fuel room =
      let p = push_back-Leaves e new is (omega arith) in
      let far = Apart-Accounts (cons ne r out s) apart p.accounts in
      let near = frame-Accounts (cons ne r out s) apart p.accounts in
      let k = front near in
      let count : length p.cells ≡ length zs + 1 = omega (
        arith,
        length-elements p.cells,
        ap length p.holds,
        length-append (elements zs) (e ∷ []),
        length-elements zs,
      ) in
      let u =
        copy_loop-Copies f new
          (record {
            chain = p.is_list.chain;
            last = p.is_list.last;
            size = refl;
            small = p.is_list.small;
          })
          k.rest (λ a i. far a (ground arith)) (omega arith) (omega (arith, count)) in
      record {
        heap = u.heap;
        first = u.first;
        old = u.old;
        cells = u.cells;
        returns =
            copy_loop-push_back alloc f (length zs) h p.heap p.object first old tmp q k.next e e ne
              r k.holds p.returns
            ∙ u.returns;
        is_list = u.is_list;
        holds = u.holds ∙ rw (p.holds, append_assoc (elements zs) (e ∷ []) (elements xs)) refl;
        accounts = Accounts-trans p.accounts u.accounts;
      }

  -- `copy` from another list object in order, whose items are apart, deletes the items of the list
  -- and leaves a list of its own with the same elements; the other list is as it was, and their
  -- items are apart.
  pub copy-Leaves :
      {alloc : Heap T → Ptr} {h : Heap T} {l other : Sll} {xs ys : Cells T}
      → IsNew alloc
      → IsList h l xs
      → IsList h other ys
      → Apart ys xs
      → (r : Leaves h xs (elements ys) (copy alloc h l other)) × IsList r.heap other ys
        × Apart ys r.cells
  unfolding copy
  copy-Leaves {alloc} {h} {l} {other} {xs} {ys} new is other_is apart =
      let c = clear-Leaves is in
      let none_left : c.cells ≡ [] = cells_nil c.cells c.holds in
      let empty : IsList c.heap c.object [] = subst (IsList c.heap c.object) none_left c.is_list in
      let account : Accounts h xs c.heap [] = subst (Accounts h xs c.heap) none_left c.accounts in
      let near = frame-Accounts other_is.chain apart account in
      let u =
        copy_loop-Copies {alloc = alloc} (suc other.size) {first = c.object.first} {old = null} new
          (record { chain = empty.chain; last = refl; size = refl; small = omega arith }) near
          (λ a i. refl) (omega (arith, other_is.size)) (omega (arith, other_is.small)) in
      let whole = Accounts-trans account u.accounts in
      let size : length u.cells ≡ other.size =
        omega
          (arith, length-elements u.cells, ap length u.holds, length-elements ys, other_is.size) in
      (
        record {
          heap = u.heap;
          object = record { first = u.first; last = u.old; size = other.size };
          cells = u.cells;
          returns = rw (c.returns, u.returns) refl;
          is_list = record {
            chain = u.is_list.chain;
            last = u.is_list.last;
            size = sym size;
            small = u.is_list.small;
          };
          holds = u.holds;
          accounts = whole;
        },
        record {
          chain = frame-Accounts other_is.chain apart whole;
          last = other_is.last;
          size = other_is.size;
          small = other_is.small;
        },
        Apart-Accounts other_is.chain apart whole,
      )

  copy_loop-gone :
      (alloc : Heap T → Ptr) (f : ℕ) (h : Heap T) (first old tmp : Ptr)
      → tmp ≢ null
      → read h tmp ≡ none
      → copy_loop alloc (suc f) h first old tmp ≡ undefined
  unfolding copy_loop
  copy_loop-gone alloc f h first old tmp ne gone = ground (arith, load-none h tmp gone)

  -- Of a list that is not empty, the copy to itself reads the item that `clear` has deleted.
  pub copy_self-undefined :
      {h : Heap T} {l : Sll} {x : Ptr × T} {xs : Cells T} (alloc : Heap T → Ptr)
      → IsList h l (x ∷ xs)
      → copy_self alloc h l ≡ undefined
  unfolding copy_self
  copy_self-undefined {h} {l} {x} {xs} alloc is =
      let c = clear-Leaves is in
      let gone : read c.heap l.first ≡ none =
        c.accounts.freed l.first (ground (arith, (front {e = x.1} is.chain).at))
          (rw (cells_nil c.cells c.holds) refl) in
      let stuck =
        copy_loop-gone alloc l.size c.heap c.object.first null l.first (first-ne_null is.chain)
          gone in
      rw (c.returns, stuck) refl
