-- ===== src/Sll/Ends.antt =====
-- `push_front`, `push_back`, `pop_front` and `behead` of include/common/sll.hh.
use kadpeer.Prelude.{
  ◌+◌, ◌<◌, ◌^◌, ◌≡◌, ◌≢◌, refl, sym, ◌∙◌, Option, none, some, List, [], ◌∷◌, ◌++◌, ◌==◌, length,
  length-append, arith, if◌then◌else◌,
}
use kadpeer.Heap.{Ptr, null, read, write, read-write, load-some, delete-some, IsNew}
use kadpeer.Outcome.{Outcome, done, undefined}
use kadpeer.Sll.{
  Item, item, Heap, Sll, increment, decrement, push_front, link_last, appended, push_back,
  drop_first, delete_first, pop_front, behead_item, behead, with_elem,
}
use kadpeer.Sll.Chain.{
  Cells, ◌∉◌, elements, last_of, has-append, elements-append, last_of-append, Chain, nil, cons,
  IsList, Accounts-refl, Leaves, frame-write, not_mem_of_none, last_of-ne_null, last_of-mem,
}
use kadpeer.Sll.Splice.{stop_of_nil, first-ne_null, Front, front, append, relink}

module _ {ℓ} {T : Type ℓ} where
  push_front-last :
      (tmp : Ptr) (e : T) {h : Heap T} {p l : Ptr} {xs : Cells T}
      → Chain h null p xs
      → l ≡ last_of xs
      → (if l == null then tmp else l) ≡ last_of ((tmp, e) ∷ xs)
  push_front-last tmp e {xs = []} s q = rw q refl
  push_front-last tmp e {xs = x ∷ xs} s q = ground (arith, last_of-ne_null s)

  -- `push_front` puts the element before the others.
  pub push_front-Leaves :
      {alloc : Heap T → Ptr} {h : Heap T} {l : Sll} {xs : Cells T} (e : T)
      → IsNew alloc
      → IsList h l xs
      → length xs + 1 < 2 ^ 32
      → Leaves h xs (e ∷ elements xs) (done (push_front alloc e h l))
  unfolding push_front
  push_front-Leaves {alloc} {h} {l} {xs} e new is room =
      let p = alloc h in
      let out : p ∉ xs = not_mem_of_none p is.chain (new.unused h) in
      record {
        heap = write h p (some (item e l.first));
        object = record {
          first = p;
          last = if l.last == null then p else l.last;
          size = increment l.size;
        };
        cells = (p, e) ∷ xs;
        returns = refl;
        is_list = record {
          chain =
              cons (new.ne_null h) (ground (arith, read-write h p (some (item e l.first)) p)) out
                (frame-write p (some (item e l.first)) is.chain out);
          last = push_front-last p e is.chain is.last;
          size = omega (arith, is.size);
          small = omega arith;
        };
        holds = refl;
        accounts = record {
          same = λ a o q. ground (arith, read-write h p (some (item e l.first)) a);
          freed = λ a i q. ground arith;
          taken = λ a o i. ground (arith, new.unused h);
        };
      }

  -- `push_back` puts the element after the others.
  pub push_back-Leaves :
      {alloc : Heap T → Ptr} {h : Heap T} {l : Sll} {xs : Cells T} (e : T)
      → IsNew alloc
      → IsList h l xs
      → length xs + 1 < 2 ^ 32
      → Leaves h xs (elements xs ++ e ∷ []) (push_back alloc e h l)
  unfolding push_back link_last appended
  push_back-Leaves {alloc} {h} {l} {xs = []} e new is room =
      let p = alloc h in
      let start : l.first ≡ null = stop_of_nil is.chain in
      record {
        heap = write h p (some (item e null));
        object = record { first = p; last = p; size = increment l.size };
        cells = (p, e) ∷ [];
        returns = rw (is.last, start) refl;
        is_list = record {
          chain =
              cons (new.ne_null h) (ground (arith, read-write h p (some (item e null)) p)) refl nil;
          last = refl;
          size = omega (arith, is.size);
          small = omega arith;
        };
        holds = refl;
        accounts = record {
          same = λ a o q. ground (arith, read-write h p (some (item e null)) a);
          freed = λ a i q. ground arith;
          taken = λ a o i. ground (arith, new.unused h);
        };
      }
  push_back-Leaves {alloc} {h} {l} {xs = x ∷ xs} e new is room =
      let p = alloc h in
      let c : Option (Item T) = some (item e null) in
      let out : p ∉ x ∷ xs = not_mem_of_none p is.chain (new.unused h) in
      let r = relink p (frame-write p c is.chain out) in
      let apart : p ≢ last_of (x ∷ xs) = ground (arith, last_of-mem x xs) in
      let kept : read r.heap p ≡ c = r.same p apart ∙ ground (arith, read-write h p c p) in
      record {
        heap = r.heap;
        object = record { first = l.first; last = p; size = increment l.size };
        cells = (x ∷ xs) ++ (p, e) ∷ [];
        returns =
            ground (arith, r.linked, is.last, last_of-ne_null is.chain, first-ne_null is.chain);
        is_list = record {
          chain = append r.chain (cons (new.ne_null h) kept refl nil) λ a i. ground arith;
          last = sym (last_of-append (x ∷ xs) p e);
          size = omega (arith, is.size, length-append (x ∷ xs) ((p, e) ∷ []));
          small = omega (arith, length-append (x ∷ xs) ((p, e) ∷ []));
        };
        holds = elements-append (x ∷ xs) ((p, e) ∷ []);
        accounts = record {
          same = λ a o q.
              r.same a (ground (arith, last_of-mem x xs))
              ∙ ground (arith, read-write h p c a, has-append a (x ∷ xs) ((p, e) ∷ []));
          freed = λ a i q. ground (arith, has-append a (x ∷ xs) ((p, e) ∷ []));
          taken = λ a o i. ground (arith, new.unused h, has-append a (x ∷ xs) ((p, e) ∷ []));
        };
      }

  rest_last :
      (p : Ptr) (e : T) {h : Heap T} {q l : Ptr} {xs : Cells T}
      → Chain h null q xs
      → l ≡ last_of ((p, e) ∷ xs)
      → (if q == null then null else l) ≡ last_of xs
  rest_last p e {xs = []} nil r = refl
  rest_last p e {xs = x ∷ xs} s r = ground (arith, first-ne_null s)

  -- The first item is deleted, and the others stay.
  delete_first-Leaves :
      {h : Heap T} {l : Sll} {p : Ptr} {e : T} {xs : Cells T}
      → IsList h l ((p, e) ∷ xs)
      → (f : Front h null l.first p e xs)
      → Leaves h ((p, e) ∷ xs) (elements xs) (delete_first h l (item e f.next))
  unfolding delete_first drop_first
  delete_first-Leaves {h} {l} {p} {e} {xs} is f = record {
    heap = write h p none;
    object = record {
      first = f.next;
      last = if f.next == null then null else l.last;
      size = decrement l.size;
    };
    cells = xs;
    returns = rw (f.at, delete-some h p f.ne_null f.holds) refl;
    is_list = record {
      chain = frame-write p none f.rest f.out;
      last = rest_last p e f.rest is.last;
      size = omega (arith, is.size, is.small);
      small = omega (arith, is.small);
    };
    holds = refl;
    accounts = record {
      same = λ a o q. ground (arith, read-write h p none a);
      freed = λ a i q. ground (arith, read-write h p none a);
      taken = λ a o i. ground arith;
    };
  }

  -- What `pop_front` and `behead` leave of the elements.
  abbrev pub tail : List T → List T
  tail [] = []
  tail (x ∷ xs) = xs

  -- `pop_front` drops the first element, where there is one.
  pub pop_front-Leaves :
      {h : Heap T} {l : Sll} {xs : Cells T}
      → IsList h l xs
      → Leaves h xs (tail (elements xs)) (pop_front h l)
  unfolding pop_front
  pop_front-Leaves {h} {l} {xs = []} is = record {
    heap = h;
    object = l;
    cells = [];
    returns = rw (stop_of_nil is.chain) refl;
    is_list = is;
    holds = refl;
    accounts = Accounts-refl;
  }
  pop_front-Leaves {h} {l} {xs = (p, e) ∷ xs} is =
      let f = front is.chain in
      let r = delete_first-Leaves is f in
      record {
        heap = r.heap;
        object = r.object;
        cells = r.cells;
        returns = ground (arith, f.at, f.ne_null, load-some h p f.ne_null f.holds, r.returns);
        is_list = r.is_list;
        holds = r.holds;
        accounts = r.accounts;
      }

  -- `behead` returns the first element and drops it.
  pub behead-Leaves :
      {h : Heap T} {l : Sll} {p : Ptr} {e : T} {xs : Cells T}
      → IsList h l ((p, e) ∷ xs)
      → (r : Outcome (Heap T × Sll)) × (behead h l ≡ with_elem e r)
        × Leaves h ((p, e) ∷ xs) (elements xs) r
  unfolding behead behead_item
  behead-Leaves {h} {l} {p} {e} {xs} is =
      let f = front is.chain in
      (
        delete_first h l (item e f.next),
        ground (arith, f.at, f.ne_null, load-some h p f.ne_null f.holds),
        delete_first-Leaves is f,
      )

  -- `behead` wants an element.
  pub behead-empty : {h : Heap T} {l : Sll} → IsList h l [] → behead h l ≡ undefined
  unfolding behead
  behead-empty is = ground (arith, stop_of_nil is.chain)
