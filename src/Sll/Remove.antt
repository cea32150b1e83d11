-- ===== src/Sll/Remove.antt =====
-- `remove ( const T & elem )` of include/common/sll.hh, for an element that is no item's own.
use kadpeer.Prelude.{
  ℕ, zero, suc, ◌<◌, ◌≡◌, ◌≢◌, refl, sym, ap, subst, ◌∙◌, Bool, true, false, List, [], ◌∷◌, ◌++◌,
  length, arith, inl, inr, Bool-cases, if◌then◌else◌,
}
use mathlib.Core.List.{append-nil, append_assoc}
use kadpeer.Heap.{null}
use kadpeer.Outcome.{done}
use kadpeer.Sll.{
  Heap, Sll, Ref, variable, deref, Removal, advance, remove_step, remove_loop, remove,
}
use kadpeer.Sll.Chain.{
  Cells, elements, last_of, elements-append, Chain, IsList, Accounts, Accounts-refl, Accounts-trans,
  Leaves,
}
use kadpeer.Sll.Unlink.{Stands, started, Stands-advance, step-advance, Deletes, deletes}
use kadpeer.Sll.Splice.{stop_of_nil, Front, front}

-- The elements that `remove` keeps.
unfoldable pub others {ℓ} : {T : Type ℓ} → (T → T → Bool) → T → List T → List T
others eq e [] = []
others eq e (x ∷ xs) = if eq x e then others eq e xs else x ∷ others eq e xs

-- The loop for an element `e` that it reads through the reference `ref`.
module _ {ℓ} {T : Type ℓ} (eq : T → T → Bool) (ref : Ref T) (e : T) where
  others-hit : (d : T) (es : List T) → eq d e ≡ true → others eq e (d ∷ es) ≡ others eq e es
  unfolding others
  others-hit d es hit = rw hit refl

  others-miss : (d : T) (es : List T) → eq d e ≡ false → others eq e (d ∷ es) ≡ d ∷ others eq e es
  unfolding others
  others-miss d es miss = rw miss refl

  -- What a loop from a removal with the items `ds` behind and `xs` ahead leaves.
  abbrev Finishes : ℕ → Removal T → Cells T → Cells T → Type ℓ
  Finishes f r ds xs =
      Leaves r.heap (ds ++ xs) (elements ds ++ others eq e (elements xs)) (remove_loop eq f ref r)

  pub step_loop :
      (f : ℕ) (r s : Removal T)
      → r.cur ≢ null
      → remove_step eq ref r ≡ done s
      → remove_loop eq (suc f) ref r ≡ remove_loop eq f ref s
  unfolding remove_loop
  step_loop f r s ne step = ground (arith, step)

  finish_hit :
      (f : ℕ) (r : Removal T) (ds : Cells T) (d : T) (ys : Cells T) (k : Deletes eq ref e r ds d ys)
      → r.cur ≢ null
      → eq d e ≡ true
      → Finishes f k.next ds ys
      → Finishes (suc f) r ds ((r.cur, d) ∷ ys)
  finish_hit f r ds d ys k ne hit u = record {
    heap = u.heap;
    object = u.object;
    cells = u.cells;
    returns = step_loop f r k.next ne k.step ∙ u.returns;
    is_list = u.is_list;
    holds = u.holds ∙ ap (λ es. elements ds ++ es) (sym (others-hit d (elements ys) hit));
    accounts = Accounts-trans k.accounts u.accounts;
  }

  finish_miss :
      (f : ℕ) (r : Removal T) (ds : Cells T) (d : T) (ys : Cells T)
      → (k : Front r.heap null r.cur r.cur d ys) → deref r.heap ref ≡ done e
      → eq d e ≡ false
      → Finishes f (advance r k.next) (ds ++ (r.cur, d) ∷ []) ys
      → Finishes (suc f) r ds ((r.cur, d) ∷ ys)
  unfolding advance
  finish_miss f r ds d ys k known miss u = record {
    heap = u.heap;
    object = u.object;
    cells = u.cells;
    returns =
        step_loop f r (advance r k.next) k.ne_null (step-advance eq ref e r k known miss)
        ∙ u.returns;
    is_list = u.is_list;
    holds =
        u.holds
        ∙ rw
            (
              elements-append ds ((r.cur, d) ∷ []),
              others-miss d (elements ys) miss,
              append_assoc (elements ds) (d ∷ []) (others eq e (elements ys)),
            )
            refl;
    accounts =
        subst (λ zs. Accounts r.heap zs u.heap u.cells) (append_assoc ds ((r.cur, d) ∷ []) ys)
          u.accounts;
  }

  finish_end : (f : ℕ) (r : Removal T) (ds : Cells T) → Stands r ds [] → Finishes (suc f) r ds []
  unfolding remove_loop others
  finish_end f r ds s =
      rw (append-nil ds, append-nil (elements ds))
        (record {
          heap = r.heap;
          object = r.object;
          cells = ds;
          returns = ground (arith, stop_of_nil s.ahead);
          is_list = record {
            chain = subst (λ a. Chain r.heap a r.object.first ds) (stop_of_nil s.ahead) s.passed;
            last = s.last ∙ ap last_of (append-nil ds);
            size = omega (arith, s.size);
            small = omega (arith, s.small);
          };
          holds = refl;
          accounts = Accounts-refl;
        })

  -- The loop goes through the items ahead, with fuel for each and one more.
  remove_loop-Leaves :
      (f : ℕ) (r : Removal T) (ds xs : Cells T)
      → ((h : Heap T) → deref h ref ≡ done e)
      → Stands r ds xs
      → length xs < f
      → Finishes f r ds xs
  remove_loop-Leaves zero r ds xs known s fuel = absurd (omega arith)
  remove_loop-Leaves (suc f) r ds [] known s fuel = finish_end f r ds s
  remove_loop-Leaves (suc f) r ds ((c, d) ∷ ys) known s fuel =
      subst (λ a. Stands r ds ((a, d) ∷ ys) → Finishes (suc f) r ds ((a, d) ∷ ys))
        ((front s.ahead).at)
        (λ t. elim (Bool-cases (eq d e)) [
          | inl hit ↦
              let k = deletes eq ref e t (front t.ahead) (known r.heap) hit in
              finish_hit f r ds d ys k ((front t.ahead).ne_null) hit
                (remove_loop-Leaves f k.next ds ys known k.stands (omega arith))
          | inr miss ↦
              let k = front t.ahead in
              finish_miss f r ds d ys k (known r.heap) miss (
                remove_loop-Leaves f (advance r k.next) (ds ++ (r.cur, d) ∷ []) ys known
                  (Stands-advance eq ref e t k) (omega arith))
        ])
        s

-- `remove` of an element that is no item's own deletes the items that equal it, each one.
pub remove-Leaves {ℓ} :
    {T : Type ℓ} (eq : T → T → Bool) (e : T) {h : Heap T} {l : Sll} {xs : Cells T}
    → IsList h l xs
    → Leaves h xs (others eq e (elements xs)) (remove eq (variable e) h l)
unfolding remove deref
remove-Leaves eq e {h} {l} {xs} is =
    remove_loop-Leaves eq (variable e) e (suc l.size)
      (record { heap = h; object = l; cur = l.first; old = null }) [] xs (λ g. refl) (started is)
      (omega (arith, is.size))
