-- ===== src/Sll/Whole.antt =====
-- `clear`, `is_in` and `copy` of include/common/sll.hh.
use kadpeer.Prelude.{
  ℕ, zero, suc, ◌<◌, ◌≡◌, refl, Bool, false, ◌||◌, none, List, [], ◌∷◌, length, arith,
}
use kadpeer.Heap.{Ptr, null, write, read-write, load-some, delete-some}
use kadpeer.Outcome.{Outcome, done}
use kadpeer.Sll.{Heap, Sll, new_sll, clear_loop, clear, is_in_loop, is_in}
use kadpeer.Sll.Chain.{
  Cells, elements, Chain, nil, cons, IsList, Accounts, Accounts-refl, Accounts-trans, Leaves,
  frame-write,
}

-- What `is_in` searches for.
unfoldable pub member {ℓ} : {T : Type ℓ} → (T → T → Bool) → T → List T → Bool
member eq e [] = false
member eq e (x ∷ xs) = eq x e || member eq e xs

module _ {ℓ} {T : Type ℓ} where
  -- What the loop of `clear` leaves of the memory.
  record Cleared (h : Heap T) (xs : Cells T) (r : Outcome (Heap T)) : Type ℓ where
    heap : Heap T
    returns : r ≡ done heap
    accounts : Accounts h xs heap []

  clear_loop-Cleared :
      (f : ℕ) (h : Heap T) {p : Ptr} {xs : Cells T}
      → Chain h null p xs
      → length xs < f
      → Cleared h xs (clear_loop f h p)
  unfolding clear_loop
  clear_loop-Cleared zero h s fuel = absurd (omega arith)
  clear_loop-Cleared (suc f) h nil fuel = record {
    heap = h;
    returns = refl;
    accounts = Accounts-refl;
  }
  clear_loop-Cleared (suc f) h {p} (cons {e} {xs} ne r out s) fuel =
      let g = write h p none in
      let u = clear_loop-Cleared f g (frame-write p none s out) (omega arith) in
      record {
        heap = u.heap;
        returns = ground (arith, load-some h p ne r, delete-some h p ne r, u.returns);
        accounts =
            Accounts-trans
              (record {
                same = λ a o q. ground (arith, read-write h p none a);
                freed = λ a i q. ground (arith, read-write h p none a);
                taken = λ a o i. ground arith;
              })
              u.accounts;
      }

  -- `clear` deletes every item.
  pub clear-Leaves :
      {h : Heap T} {l : Sll} {xs : Cells T} → IsList h l xs → Leaves h xs [] (clear h l)
  unfolding clear
  clear-Leaves {h} {l} {xs = []} is = record {
    heap = h;
    object = l;
    cells = [];
    returns = ground (arith, is.size);
    is_list = is;
    holds = refl;
    accounts = Accounts-refl;
  }
  clear-Leaves {h} {l} {xs = x ∷ xs} is =
      let u = clear_loop-Cleared (suc l.size) h is.chain (omega (arith, is.size)) in
      record {
        heap = u.heap;
        object = new_sll;
        cells = [];
        returns = ground (arith, is.size, u.returns);
        is_list = record { chain = nil; last = refl; size = refl; small = omega arith };
        holds = refl;
        accounts = u.accounts;
      }

  is_in_loop-member :
      (eq : T → T → Bool) (e : T) (f : ℕ) {h : Heap T} {p : Ptr} {xs : Cells T}
      → Chain h null p xs
      → length xs < f
      → is_in_loop eq f h e p ≡ done (member eq e (elements xs))
  unfolding is_in_loop member
  is_in_loop-member eq e zero s fuel = absurd (omega arith)
  is_in_loop-member eq e (suc f) nil fuel = refl
  is_in_loop-member eq e (suc f) {h} {p} (cons ne r out s) fuel =
      ground (arith, load-some h p ne r, is_in_loop-member eq e f s)

  -- `is_in` says whether some element equals the one given.
  pub is_in-member :
      (eq : T → T → Bool) (e : T) {h : Heap T} {l : Sll} {xs : Cells T}
      → IsList h l xs
      → is_in eq e h l ≡ done (member eq e (elements xs))
  unfolding is_in
  is_in-member eq e {l} is = is_in_loop-member eq e (suc l.size) is.chain (omega (arith, is.size))
