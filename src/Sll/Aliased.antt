-- ===== src/Sll/Aliased.antt =====
-- `remove ( iterator & i )` of include/common/sll.hh, which passes a reference to the data of an item
-- that the loop deletes.
use kadpeer.Prelude.{
  ℕ, zero, suc, ◌+◌, ◌<◌, ◌≡◌, ◌≢◌, refl, sym, subst, ◌∙◌, Bool, true, false, none, some, [], ◌∷◌,
  ◌++◌, ◌==◌, length, length-append, arith, inl, inr, Bool-cases,
}
use kadpeer.Heap.{Ptr, null, read, load-some, load-none}
use kadpeer.Outcome.{done, undefined}
use kadpeer.Sll.{
  item, Heap, Sll, data_of, deref, Removal, advance, remove_step, remove_loop, remove, remove_at,
}
use kadpeer.Sll.Chain.{Cells, has-append, Chain, cons, IsList}
use kadpeer.Sll.Splice.{front}
use kadpeer.Sll.Unlink.{Stands, started, Stands-advance, step-advance, deletes}
use kadpeer.Sll.Remove.{step_loop}

module _ {ℓ} {T : Type ℓ} where
  -- The item of a cell of a chain.
  pub record Held (h : Heap T) (p : Ptr) (e : T) : Type ℓ where
    pub next : Ptr
    pub ne_null : p ≢ null
    pub is : read h p ≡ some (item e next)

  held :
      {h : Heap T} {stop p q : Ptr} (xs : Cells T) (e : T) (zs : Cells T)
      → Chain h stop p (xs ++ (q, e) ∷ zs)
      → Held h q e
  held [] e zs (cons {q} ne r out s) = record { next = q; ne_null = ne; is = r }
  held (x ∷ xs) e zs (cons ne r out s) = held xs e zs s

module _ {ℓ} {T : Type ℓ} (eq : T → T → Bool) (p : Ptr) (e : T) (hit : eq e e ≡ true) where
  reads :
      (xs zs : Cells T) {r : Removal T} {ds : Cells T}
      → Stands r ds (xs ++ (p, e) ∷ zs)
      → deref r.heap (data_of p) ≡ done e
  unfolding deref
  reads xs zs {r} s = let k = held xs e zs s.ahead in rw (load-some r.heap p k.ne_null k.is) refl

  -- The loop stands at an item, and the element is gone.
  step-gone :
      {r : Removal T} {y : Ptr × T} {ds ys : Cells T}
      → Stands r ds (y ∷ ys)
      → read r.heap p ≡ none
      → (f : ℕ) → remove_loop eq (suc f) (data_of p) r ≡ undefined
  unfolding remove_loop remove_step deref
  step-gone {r} {y} s gone f =
      let k = front {e = y.1} s.ahead in
      ground
        (arith, k.at, k.ne_null, load-some r.heap y.0 k.ne_null k.holds, load-none r.heap p gone)

  -- The loop stands at the item of the reference, and another one follows.
  at_item :
      (f : ℕ) (r : Removal T) (ds : Cells T) (y : Ptr × T) (ys : Cells T)
      → Stands r ds ((r.cur, e) ∷ y ∷ ys)
      → r.cur ≡ p
      → deref r.heap (data_of p) ≡ done e
      → remove_loop eq (suc (suc f)) (data_of p) r ≡ undefined
  at_item f r ds y ys s here known =
      let g = front s.ahead in
      let k = deletes eq (data_of p) e s g known hit in
      let gone : read k.next.heap p ≡ none =
        k.accounts.freed p (ground (arith, has-append p ds ((r.cur, e) ∷ y ∷ ys)))
          (ground (arith, has-append p ds (y ∷ ys), s.apart p, g.out)) in
      step_loop eq (data_of p) e (suc f) r k.next g.ne_null k.step ∙ step-gone k.stands gone f

  -- The loop stands at an item before the one of the reference.
  before_item :
      (f : ℕ) (r : Removal T) (ds : Cells T) (d : T) (xs : Cells T) (y : Ptr × T) (ys : Cells T)
      → Stands r ds ((r.cur, d) ∷ (xs ++ (p, e) ∷ y ∷ ys))
      → deref r.heap (data_of p) ≡ done e
      → ((s : Removal T) (cs : Cells T)
          → Stands s cs (xs ++ (p, e) ∷ y ∷ ys)
          → remove_loop eq f (data_of p) s ≡ undefined)
      → remove_loop eq (suc f) (data_of p) r ≡ undefined
  before_item f r ds d xs y ys s known rest =
      let g = front s.ahead in
      elim (Bool-cases (eq d e)) [
        | inl same ↦
            let k = deletes eq (data_of p) e s g known same in
            step_loop eq (data_of p) e f r k.next g.ne_null k.step ∙ rest k.next ds k.stands
        | inr miss ↦
            step_loop eq (data_of p) e f r (advance r g.next) g.ne_null
              (step-advance eq (data_of p) e r g known miss)
            ∙ rest (advance r g.next) (ds ++ (r.cur, d) ∷ []) (Stands-advance eq (data_of p) e s g)
      ]

  remove_loop-undefined :
      (f : ℕ) (r : Removal T) (ds xs : Cells T) (y : Ptr × T) (ys : Cells T)
      → Stands r ds (xs ++ (p, e) ∷ y ∷ ys)
      → length xs + 1 < f
      → remove_loop eq f (data_of p) r ≡ undefined
  remove_loop-undefined zero r ds xs y ys s fuel = absurd (omega arith)
  remove_loop-undefined (suc zero) r ds xs y ys s fuel = absurd (omega arith)
  remove_loop-undefined (suc (suc f)) r ds [] y ys s fuel =
      let here = (front s.ahead).at in
      at_item f r ds y ys (subst (λ a. Stands r ds ((a, e) ∷ y ∷ ys)) (sym here) s) here
        (reads [] (y ∷ ys) s)
  remove_loop-undefined (suc (suc f)) r ds ((c, d) ∷ xs) y ys s fuel =
      let here = (front s.ahead).at in
      before_item (suc f) r ds d xs y ys
        (subst (λ a. Stands r ds ((a, d) ∷ (xs ++ (p, e) ∷ y ∷ ys))) (sym here) s)
        (reads ((c, d) ∷ xs) (y ∷ ys) s)
        (λ t cs u. remove_loop-undefined (suc f) t cs xs y ys u (omega arith))

-- `remove` of an iterator to an item of a list in order is undefined where the item equals itself
-- and is not the last one: the loop reads the data of the item that it deleted.
pub remove_at-undefined {ℓ} :
    {T : Type ℓ} (eq : T → T → Bool) {h : Heap T} {l : Sll} (xs : Cells T) (p : Ptr) (e : T)
    (y : Ptr × T) (ys : Cells T)
    → IsList h l (xs ++ (p, e) ∷ y ∷ ys)
    → eq e e ≡ true
    → remove_at eq p h l ≡ undefined
unfolding remove_at remove
remove_at-undefined eq {h} {l} xs p e y ys is hit =
    let ne = (held xs e (y ∷ ys) is.chain).ne_null in
    let live : (p == null) ≡ false = ground arith in
    rw live (
      remove_loop-undefined eq p e hit (suc l.size)
        (record { heap = h; object = l; cur = l.first; old = null }) [] xs y ys (started is)
        (omega (arith, is.size, length-append xs ((p, e) ∷ y ∷ ys))))
