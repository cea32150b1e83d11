-- ===== src/Sll/History.antt =====
-- Histories of calls on a list object of include/common/sll.hh, against a list that no pointers make up.
use kadpeer.Prelude.{
  ◌+◌, ◌≤◌, ◌<◌, ◌^◌, ◌≡◌, refl, ap, subst, Bool, Option, none, some, List, [], ◌∷◌, ◌++◌, length,
  length-append, arith,
}
use kadpeer.Heap.{Ptr, IsNew}
use kadpeer.Outcome.{Outcome, done, undefined, ◌>>=◌}
use kadpeer.Sll.{
  Heap, Sll, variable, push_front as sll_push_front, push_back as sll_push_back,
  pop_front as sll_pop_front, behead as sll_behead, remove as sll_remove, clear as sll_clear,
  is_in as sll_is_in,
}
use kadpeer.Sll.Chain.{
  Cells, elements, length-elements, IsList, Accounts, Accounts-refl, Accounts-trans, Leaves,
}
use kadpeer.Sll.Ends.{
  push_front-Leaves, push_back-Leaves, pop_front-Leaves, behead-Leaves, tail, behead-empty,
}
use kadpeer.Sll.Remove.{others, remove-Leaves}
use kadpeer.Sll.Whole.{clear-Leaves, member, is_in-member}

-- A call of a method of `sll<T>`.
pub data Command {ℓ} (T : Type ℓ) : Type ℓ where
  push_front : T → Command T
  push_back : T → Command T
  pop_front : Command T
  behead : Command T
  remove : T → Command T
  clear : Command T
  is_in : T → Command T

-- What a call returns to its caller.
pub data Reply {ℓ} (T : Type ℓ) : Type ℓ where
  nothing : Reply T
  element : T → Reply T
  answer : Bool → Reply T

module _ {ℓ} {T : Type ℓ} where
  abbrev pub silent : Outcome (Heap T × Sll) → Outcome (Reply T × Heap T × Sll)
  silent r = r >>= λ s. done (nothing, s.0, s.1)

  -- What the list holds after a call, and what the call returns; `behead` has a precondition.
  abbrev pub beheaded : List T → Option (Reply T × List T)
  beheaded [] = none
  beheaded (x ∷ xs) = some (element x, xs)

  abbrev pub with_reply :
      Reply T → Option (List (Reply T) × List T) → Option (List (Reply T) × List T)
  with_reply a none = none
  with_reply a (some (rs, es)) = some (a ∷ rs, es)

  abbrev pub meaning_then :
      Option (Reply T × List T)
      → (List T → Option (List (Reply T) × List T))
      → Option (List (Reply T) × List T)
  meaning_then none k = none
  meaning_then (some (a, es)) k = with_reply a (k es)

  abbrev pub calls_then :
      Outcome (Reply T × Heap T × Sll)
      → (Heap T → Sll → Outcome (List (Reply T) × Heap T × Sll))
      → Outcome (List (Reply T) × Heap T × Sll)
  calls_then r k = r >>= λ s. k s.1 s.2 >>= λ t. done (s.0 ∷ t.0, t.1, t.2)

module _ {ℓ} {T : Type ℓ} (eq : T → T → Bool) where
  -- What a call returns, and what the list holds after it; `behead` wants an element.
  unfoldable pub meaning : Command T → List T → Option (Reply T × List T)
  meaning (push_front e) es = some (nothing, e ∷ es)
  meaning (push_back e) es = some (nothing, es ++ e ∷ [])
  meaning pop_front es = some (nothing, tail es)
  meaning behead es = beheaded es
  meaning (remove e) es = some (nothing, others eq e es)
  meaning clear es = some (nothing, [])
  meaning (is_in e) es = some (answer (member eq e es), es)

  unfoldable pub meanings : List (Command T) → List T → Option (List (Reply T) × List T)
  meanings [] es = some ([], es)
  meanings (c ∷ cs) es = meaning_then (meaning c es) (meanings cs)

module _ {ℓ} {T : Type ℓ} (alloc : Heap T → Ptr) (eq : T → T → Bool) where
  unfoldable pub call : Command T → Heap T → Sll → Outcome (Reply T × Heap T × Sll)
  call (push_front e) h l = silent (done (sll_push_front alloc e h l))
  call (push_back e) h l = silent (sll_push_back alloc e h l)
  call pop_front h l = silent (sll_pop_front h l)
  call behead h l = sll_behead h l >>= λ s. done (element s.0, s.1, s.2)
  call (remove e) h l = silent (sll_remove eq (variable e) h l)
  call clear h l = silent (sll_clear h l)
  call (is_in e) h l = sll_is_in eq e h l >>= λ b. done (answer b, h, l)

  unfoldable pub calls : List (Command T) → Heap T → Sll → Outcome (List (Reply T) × Heap T × Sll)
  calls [] h l = done ([], h, l)
  calls (c ∷ cs) h l = calls_then (call c h l) (calls cs)

-- The outcome is what the meaning says: undefined where it has none, and otherwise the reply, with a
-- list object of the elements and the memory accounted for.
abbrev pub Means {ℓ} :
    {T A : Type ℓ} → Heap T → Cells T → Option (A × List T) → Outcome (A × Heap T × Sll) → Type ℓ
Means {T} h xs none r = r ≡ undefined
Means {T} h xs (some (a, es)) r =
    (g : Heap T) × (l : Sll) × (ys : Cells T) × (r ≡ done (a, g, l))
    × IsList g l ys
    × (elements ys ≡ es)
    × Accounts h xs g ys

Leaves-Means {ℓ} :
    {T : Type ℓ} {h : Heap T} {xs : Cells T} {es : List T} {r : Outcome (Heap T × Sll)}
    → Leaves h xs es r
    → Means h xs (some (nothing, es)) (silent r)
Leaves-Means u = (u.heap, u.object, u.cells, rw (u.returns) refl, u.is_list, u.holds, u.accounts)

length-others {ℓ} :
    {T : Type ℓ} (eq : T → T → Bool) (e : T) (es : List T) → length (others eq e es) ≤ length es
unfolding others
length-others eq e [] = omega arith
length-others eq e (x ∷ es) = ground (arith, length-others eq e es)

module _ {ℓ} {T : Type ℓ} {alloc : Heap T → Ptr} (eq : T → T → Bool) (new : IsNew alloc) where
  call-Means :
      (c : Command T) {h : Heap T} {l : Sll} {xs : Cells T}
      → IsList h l xs
      → length xs + 1 < 2 ^ 32
      → Means h xs (meaning eq c (elements xs)) (call alloc eq c h l)
  unfolding meaning call
  call-Means (push_front e) is room = Leaves-Means (push_front-Leaves e new is room)
  call-Means (push_back e) is room = Leaves-Means (push_back-Leaves e new is room)
  call-Means pop_front is room = Leaves-Means (pop_front-Leaves is)
  call-Means behead {xs = []} is room = rw (behead-empty is) refl
  call-Means behead {xs = (p, e) ∷ xs} is room =
      let (r, same, u) = behead-Leaves is in
      (u.heap, u.object, u.cells, rw (same, u.returns) refl, u.is_list, u.holds, u.accounts)
  call-Means (remove e) is room = Leaves-Means (remove-Leaves eq e is)
  call-Means clear is room = Leaves-Means (clear-Leaves is)
  call-Means (is_in e) {h} {l} {xs} is room =
      (h, l, xs, rw (is_in-member eq e is) refl, is, refl, Accounts-refl)

  length-meaning :
      (c : Command T) (es : List T) {a : Reply T} {fs : List T}
      → meaning eq c es ≡ some (a, fs)
      → length fs ≤ length es + 1
  unfolding meaning
  length-meaning (push_front e) es q = ground arith
  length-meaning (push_back e) es q = ground (arith, length-append es (e ∷ []))
  length-meaning pop_front [] q = ground arith
  length-meaning pop_front (x ∷ es) q = ground arith
  length-meaning behead [] q = ground arith
  length-meaning behead (x ∷ es) q = ground arith
  length-meaning (remove e) es q = ground (arith, length-others eq e es)
  length-meaning clear es q = ground arith
  length-meaning (is_in e) es q = ground arith

  Means-then :
      (h : Heap T) (xs : Cells T) (m : Option (Reply T × List T))
      (r : Outcome (Reply T × Heap T × Sll)) (k : List T → Option (List (Reply T) × List T))
      (next : Heap T → Sll → Outcome (List (Reply T) × Heap T × Sll))
      → Means h xs m r
      → ((a : Reply T) (es : List T) (g : Heap T) (l : Sll) (ys : Cells T)
          → m ≡ some (a, es)
          → IsList g l ys
          → elements ys ≡ es
          → Means g ys (k es) (next g l))
      → Means h xs (meaning_then m k) (calls_then r next)
  Means-then h xs none r k next u f = rw u refl
  Means-then h xs (some (a, es)) r k next (g, l, ys, e, is, same, account) f =
      replied (k es) (f a es g l ys refl is same)
    where
      replied :
          (n : Option (List (Reply T) × List T))
          → Means g ys n (next g l)
          → Means h xs (with_reply a n) (calls_then r next)
      replied none u = rw (e, u) refl
      replied (some (rs, fs)) (k, m, zs, u, is', same', account') =
          (k, m, zs, rw (e, u) refl, is', same', Accounts-trans account account')

  -- On a list object in order, every history of calls, with fewer than 2 ^ 32 elements and calls
  -- together and a `new` that returns unused addresses, returns what it means on a plain list: the
  -- replies of the calls, and a list object in order for the elements that are left. It writes
  -- only addresses that held nothing or items of the list, and gives back the items it drops.
  -- Where a `behead` finds no element, it is undefined.
  pub calls-Means :
      (cs : List (Command T)) {h : Heap T} {l : Sll} {xs : Cells T}
      → IsList h l xs
      → length xs + length cs < 2 ^ 32
      → Means h xs (meanings eq cs (elements xs)) (calls alloc eq cs h l)
  unfolding meanings calls
  calls-Means [] {h} {l} {xs} is room = (h, l, xs, refl, is, refl, Accounts-refl)
  calls-Means (c ∷ cs) {h} {l} {xs} is room =
      Means-then h xs (meaning eq c (elements xs)) (call alloc eq c h l) (meanings eq cs)
        (calls alloc eq cs) (call-Means c is (omega arith))
        (λ a es g m ys e is' same.
          subst (λ fs. Means g ys (meanings eq cs fs) (calls alloc eq cs g m)) same
            (calls-Means cs is' (
              omega (
                arith,
                room,
                length-meaning c (elements xs) e,
                length-elements xs,
                length-elements ys,
                ap length same,
              ))))
