-- ===== src/Sll/Splice.antt =====
-- Chains of items that are joined, and the pointer at the end of one that is set.
use kadpeer.Prelude.{◌≡◌, ◌≢◌, refl, ◌∙◌, Option, some, [], ◌∷◌, ◌++◌, arith}
use kadpeer.Heap.{Ptr, null, read, write, read-write, load-some}
use kadpeer.Outcome.{done}
use kadpeer.Sll.{Item, item, Heap, set_next}
use kadpeer.Sll.Chain.{Cells, ◌∈◌, ◌∉◌, last_of, has-append, Chain, nil, cons, last_of-mem}

module _ {ℓ} {T : Type ℓ} where
  pub set_next-some :
      (h : Heap T) (p q : Ptr) {e : T} {s : Ptr}
      → p ≢ null
      → read h p ≡ some (item e s)
      → set_next h p q ≡ done (write h p (some (item e q)))
  unfolding set_next
  set_next-some h p q ne e = rw (load-some h p ne e)

  pub stop_of_nil : {h : Heap T} {p stop : Ptr} → Chain h stop p [] → p ≡ stop
  stop_of_nil nil = refl

  pub first-ne_null :
      {h : Heap T} {p : Ptr} {x : Ptr × T} {xs : Cells T} → Chain h null p (x ∷ xs) → p ≢ null
  first-ne_null (cons ne f out s) = ne

  -- The first item of a chain.
  pub record Front (h : Heap T) (stop f p : Ptr) (e : T) (xs : Cells T) : Type ℓ where
    pub next : Ptr
    pub at : f ≡ p
    pub ne_null : p ≢ null
    pub holds : read h p ≡ some (item e next)
    pub out : p ∉ xs
    pub rest : Chain h stop next xs

  pub front :
      {h : Heap T} {stop f p : Ptr} {e : T} {xs : Cells T}
      → Chain h stop f ((p, e) ∷ xs)
      → Front h stop f p e xs
  front (cons {q} ne r out s) = record {
    next = q;
    at = refl;
    ne_null = ne;
    holds = r;
    out = out;
    rest = s;
  }

  abbrev pub Apart : Cells T → Cells T → Type 0
  Apart xs ys = (a : Ptr) → a ∈ xs → a ∉ ys

  pub append :
      {h : Heap T} {end stop p : Ptr} {ys xs : Cells T}
      → Chain h stop p xs
      → Chain h end stop ys
      → Apart xs ys
      → Chain h end p (xs ++ ys)
  append nil t apart = t
  append {ys} (cons {p} {xs} ne e out s) t apart =
      cons ne e (ground (arith, has-append p xs ys, apart p))
        (append s t λ a i. ground (arith, apart a))

  -- What the assignment to the `_next` of the last item leaves.
  pub record Relinked (h : Heap T) (xs : Cells T) (stop p q : Ptr) : Type ℓ where
    pub heap : Heap T
    pub elem : T
    pub was : read h (last_of xs) ≡ some (item elem stop)
    pub linked : set_next h (last_of xs) q ≡ done heap
    pub is : read heap (last_of xs) ≡ some (item elem q)
    pub chain : Chain heap q p xs
    pub same : (a : Ptr) → a ≢ last_of xs → read heap a ≡ read h a

  pub relink :
      (q : Ptr) {h : Heap T} {stop p : Ptr} {x : Ptr × T} {xs : Cells T}
      → Chain h stop p (x ∷ xs)
      → Relinked h (x ∷ xs) stop p q
  relink q {h} {stop} {x = (p, d)} {xs = []} (cons ne f out nil) =
      let c : Option (Item T) = some (item d q) in
      record {
        heap = write h p c;
        elem = d;
        was = f;
        linked = set_next-some h p q ne f;
        is = ground (arith, read-write h p c p);
        chain = cons ne (ground (arith, read-write h p c p)) out nil;
        same = λ a o. ground (arith, read-write h p c a);
      }
  relink q {h} {x = (p, d)} {xs = y ∷ ys} (cons ne f out s) =
      let r = relink q s in
      record {
        heap = r.heap;
        elem = r.elem;
        was = r.was;
        linked = r.linked;
        is = r.is;
        chain = cons ne (r.same p (ground (arith, last_of-mem y ys)) ∙ f) out r.chain;
        same = r.same;
      }
