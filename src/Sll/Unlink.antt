-- ===== src/Sll/Unlink.antt =====
-- The steps of the loop of `remove` of include/common/sll.hh: one that goes on, and one that deletes.
use kadpeer.Prelude.{
  ◌+◌, ◌<◌, ◌^◌, ◌≡◌, ◌≢◌, refl, sym, ap, ◌∙◌, Bool, true, false, none, some, [], ◌∷◌, ◌++◌, ◌==◌,
  length, length-append, arith, if◌then◌else◌,
}
use mathlib.Core.List.{append-nil, append_assoc}
use kadpeer.Heap.{Ptr, null, read, write, load, read-write, load-some, delete-some}
use kadpeer.Outcome.{done}
use kadpeer.Sll.{
  item, Heap, Sll, decrement, set_next, Ref, deref, Removal, unlink, after, deleted, advance,
  remove_item, remove_step,
}
use kadpeer.Sll.Chain.{
  Cells, ◌∉◌, last_of, has-append, last_of-append_cons, Chain, nil, cons, IsList, Accounts, frame,
  frame-write, last_of-ne_null, last_of-mem,
}
use kadpeer.Sll.Splice.{stop_of_nil, Front, front, Apart, append, relink}

module _ {ℓ} {T : Type ℓ} where
  -- The loop stands at `cur`, behind the items `ds` and before the items `xs`.
  pub record Stands (r : Removal T) (ds xs : Cells T) : Type ℓ where
    pub passed : Chain r.heap r.cur r.object.first ds
    pub ahead : Chain r.heap null r.cur xs
    pub apart : Apart ds xs
    pub old : r.old ≡ last_of ds
    pub last : r.object.last ≡ last_of (ds ++ xs)
    pub size : r.object.size ≡ length ds + length xs
    pub small : length ds + length xs < 2 ^ 32

  -- The last item after one is unlinked.
  unlink-last :
      (ds : Cells T) (c : Ptr) (d : T) (ys : Cells T)
      → c ∉ ys
      → (if c == last_of (ds ++ (c, d) ∷ ys) then last_of ds else last_of (ds ++ (c, d) ∷ ys))
        ≡ last_of (ds ++ ys)
  unlink-last [] c d [] out = ground arith
  unlink-last [] c d (y ∷ ys) out = ground (arith, last_of-mem y ys)
  unlink-last (x ∷ ds) c d [] out =
      ground (arith, last_of-append_cons (x ∷ ds) (c, d) [], append-nil (x ∷ ds))
  unlink-last (x ∷ ds) c d (y ∷ ys) out = ground (
    arith,
    last_of-append_cons (x ∷ ds) (c, d) (y ∷ ys),
    last_of-append_cons (x ∷ ds) y ys,
    last_of-mem y ys,
  )

  pub started :
      {h : Heap T} {l : Sll} {xs : Cells T}
      → IsList h l xs
      → Stands (record { heap = h; object = l; cur = l.first; old = null }) [] xs
  started is = record {
    passed = nil;
    ahead = is.chain;
    apart = λ a i. cc;
    old = refl;
    last = is.last;
    size = omega (arith, is.size);
    small = omega (arith, is.small);
  }

-- The loop for an element `e` that it reads through the reference `ref`.
module _ {ℓ} {T : Type ℓ} (eq : T → T → Bool) (ref : Ref T) (e : T) where
  -- A step that goes on to the next item.
  pub Stands-advance :
      {r : Removal T} {ds ys : Cells T} {d : T}
      → Stands r ds ((r.cur, d) ∷ ys)
      → (f : Front r.heap null r.cur r.cur d ys)
      → Stands (advance r f.next) (ds ++ (r.cur, d) ∷ []) ys
  unfolding advance
  Stands-advance {r} {ds} {ys} {d} s f = record {
    passed = append s.passed (cons f.ne_null f.holds refl nil) λ a i. ground (arith, s.apart a);
    ahead = f.rest;
    apart = λ a i. ground (arith, s.apart a, has-append a ds ((r.cur, d) ∷ []), f.out);
    old = sym (last_of-append_cons ds (r.cur, d) []);
    last = s.last ∙ ap last_of (sym (append_assoc ds ((r.cur, d) ∷ []) ys));
    size = omega (arith, s.size, length-append ds ((r.cur, d) ∷ []));
    small = omega (arith, s.small, length-append ds ((r.cur, d) ∷ []));
  }

  pub step-advance :
      (r : Removal T) {ys : Cells T} {d : T}
      → (f : Front r.heap null r.cur r.cur d ys) → deref r.heap ref ≡ done e
      → eq d e ≡ false
      → remove_step eq ref r ≡ done (advance r f.next)
  unfolding remove_step remove_item
  step-advance r f known miss = rw (load-some r.heap r.cur f.ne_null f.holds, known, miss) refl

  -- A step that deletes the item.
  pub record Deletes (r : Removal T) (ds : Cells T) (d : T) (ys : Cells T) : Type ℓ where
    pub next : Removal T
    pub step : remove_step eq ref r ≡ done next
    pub stands : Stands next ds ys
    pub accounts : Accounts r.heap (ds ++ (r.cur, d) ∷ ys) next.heap (ds ++ ys)

  delete_front :
      {r : Removal T} {ys : Cells T} {d : T}
      → Stands r [] ((r.cur, d) ∷ ys)
      → Front r.heap null r.cur r.cur d ys
      → deref r.heap ref ≡ done e
      → eq d e ≡ true
      → Deletes r [] d ys
  unfolding remove_step remove_item unlink deleted after
  delete_front {r} {ys} {d} s f known hit =
      let here : r.cur ≡ r.object.first = sym (stop_of_nil s.passed) in
      let first : (r.cur == r.object.first) ≡ true = ground arith in
      let start : (r.old == null) ≡ true = ground (arith, s.old) in
      record {
        next = record {
          heap = write r.heap r.cur none;
          object = record {
            first = f.next;
            last = if r.cur == r.object.last then r.old else r.object.last;
            size = decrement r.object.size;
          };
          cur = f.next;
          old = r.old;
        };
        step =
            rw
              (
                load-some r.heap r.cur f.ne_null f.holds,
                known,
                hit,
                first,
                delete-some r.heap r.cur f.ne_null f.holds,
                start,
                first,
              )
              refl;
        stands = record {
          passed = nil;
          ahead = frame-write r.cur none f.rest f.out;
          apart = λ a i. ground arith;
          old = s.old;
          last = rw (s.last, s.old) (unlink-last [] r.cur d ys f.out);
          size = omega (arith, s.size, s.small);
          small = omega (arith, s.small);
        };
        accounts = record {
          same = λ a o q. ground (arith, read-write r.heap r.cur none a);
          freed = λ a i q. ground (arith, read-write r.heap r.cur none a);
          taken = λ a o i. ground arith;
        };
      }

  delete_later :
      {r : Removal T} {x : Ptr × T} {ds ys : Cells T} {d : T}
      → Stands r (x ∷ ds) ((r.cur, d) ∷ ys)
      → Front r.heap null r.cur r.cur d ys
      → deref r.heap ref ≡ done e
      → eq d e ≡ true
      → Deletes r (x ∷ ds) d ys
  unfolding remove_step remove_item unlink deleted after
  delete_later {r} {x} {ds} {ys} {d} s f known hit =
      let k = relink f.next s.passed in
      let off : r.cur ∉ x ∷ ds = ground (arith, s.apart r.cur) in
      let off_last : r.cur ≢ last_of (x ∷ ds) = ground (arith, last_of-mem x ds) in
      let held : read k.heap r.cur ≡ some (item d f.next) = k.same r.cur off_last ∙ f.holds in
      let g : Heap T = write k.heap r.cur none in
      let kept : read g (last_of (x ∷ ds)) ≡ some (item k.elem f.next) =
        ground (arith, read-write k.heap r.cur none (last_of (x ∷ ds))) ∙ k.is in
      let later : (r.cur == r.object.first) ≡ false =
        ground (arith, (front {e = x.1} s.passed).at) in
      let behind : (r.old == null) ≡ false = ground (arith, s.old, last_of-ne_null s.passed) in
      let linked : set_next r.heap r.old f.next ≡ done k.heap =
        ap (λ a. set_next r.heap a f.next) s.old ∙ k.linked in
      let loaded : load g r.old ≡ done (item k.elem f.next) =
        ap (load g) s.old ∙ load-some g (last_of (x ∷ ds)) (last_of-ne_null s.passed) kept in
      record {
        next = record {
          heap = g;
          object = record {
            first = r.object.first;
            last = if r.cur == r.object.last then r.old else r.object.last;
            size = decrement r.object.size;
          };
          cur = f.next;
          old = r.old;
        };
        step =
            rw
              (
                load-some r.heap r.cur f.ne_null f.holds,
                known,
                hit,
                later,
                linked,
                delete-some k.heap r.cur f.ne_null held,
                behind,
                loaded,
                later,
              )
              refl;
        stands = record {
          passed = frame-write r.cur none k.chain off;
          ahead = frame f.rest λ a i.
              ground (arith, read-write k.heap r.cur none a, f.out)
              ∙ k.same a (ground (arith, s.apart a, last_of-mem x ds));
          apart = λ a i. ground (arith, s.apart a);
          old = s.old;
          last = rw (s.last, s.old) (unlink-last (x ∷ ds) r.cur d ys f.out);
          size = omega (arith, s.size, s.small);
          small = omega (arith, s.small);
        };
        accounts = record {
          same = λ a o q.
              ground
                (arith, read-write k.heap r.cur none a, has-append a (x ∷ ds) ((r.cur, d) ∷ ys))
              ∙ k.same a
                  (ground (arith, last_of-mem x ds, has-append a (x ∷ ds) ((r.cur, d) ∷ ys)));
          freed = λ a i q. ground (
            arith,
            read-write k.heap r.cur none a,
            has-append a (x ∷ ds) ((r.cur, d) ∷ ys),
            has-append a (x ∷ ds) ys,
          );
          taken = λ a o i.
              ground (arith, has-append a (x ∷ ds) ((r.cur, d) ∷ ys), has-append a (x ∷ ds) ys);
        };
      }

  pub deletes :
      {r : Removal T} {ds ys : Cells T} {d : T}
      → Stands r ds ((r.cur, d) ∷ ys)
      → Front r.heap null r.cur r.cur d ys
      → deref r.heap ref ≡ done e
      → eq d e ≡ true
      → Deletes r ds d ys
  deletes {ds = []} s f known hit = delete_front s f known hit
  deletes {ds = x ∷ ds} s f known hit = delete_later s f known hit
