-- ===== src/Tests/Lists.antt =====
-- List objects of two numbers, and the theorems on them.
use kadpeer.Prelude.{ℕ, suc, ◌<◌, ◌≡◌, refl, Bool, Option, none, some, List, [], ◌∷◌, ◌==◌, arith}
use Prim.Native.Nat.{max}
use kadpeer.Heap.{Ptr, null, read, IsNew}
use kadpeer.Outcome.{undefined}
use kadpeer.Sll.{Item, item, Heap, Sll, new_sll, copy, copy_self, remove_at}
use kadpeer.Sll.Chain.{nil, cons, IsList, Leaves}
use kadpeer.Sll.Splice.{Apart}
use kadpeer.Sll.Copy.{copy-Leaves, copy_self-undefined}
use kadpeer.Sll.Aliased.{remove_at-undefined}
use kadpeer.Sll.History.{
  push_front, push_back, pop_front, behead, remove, clear, is_in, Command, calls, meanings, Means,
  calls-Means,
}

-- The highest address that was written.
abbrev pub top {ℓ} : {N : Type ℓ} → List (Ptr × Option N) → ℕ
top [] = 0
top ((p, c) ∷ h) = max p (top h)

abbrev pub alloc {ℓ} : {N : Type ℓ} → List (Ptr × Option N) → Ptr
alloc h = suc (top h)

pub read-above {ℓ} :
    {N : Type ℓ} (h : List (Ptr × Option N)) (a : Ptr) → top h < a → read h a ≡ none
unfolding read
read-above [] a above = refl
read-above ((p, c) ∷ h) a above =
    let e : (a == p) ≡ Bool.false = ground arith in rw e (read-above h a (omega arith))

abbrev alloc-IsNew : IsNew {N = Item ℕ} alloc
alloc-IsNew = record {
  ne_null = λ h. omega arith;
  unused = λ h. read-above h (alloc h) (omega arith);
}

-- The list of 5 and 6, at the addresses 1 and 2
abbrev memory : Heap ℕ
memory = (1, some (item 5 2)) ∷ (2, some (item 6 null)) ∷ []

abbrev pair : Sll
pair = record { first = 1; last = 2; size = 2 }

pair-IsList : IsList memory pair ((1, 5) ∷ (2, 6) ∷ [])
unfolding read
pair-IsList = record {
  chain = cons (omega arith) refl refl (cons (omega arith) refl refl nil);
  last = refl;
  size = refl;
  small = omega arith;
}

new_sll-IsList : (h : Heap ℕ) → IsList h new_sll []
new_sll-IsList h = record { chain = nil; last = refl; size = refl; small = omega arith }

abbrev history : List (Command ℕ)
history =
    push_back 5
    ∷ push_front 6
    ∷ push_back 6
    ∷ is_in 5
    ∷ remove 6
    ∷ behead
    ∷ pop_front
    ∷ clear
    ∷ behead
    ∷ []

calls-Means_example :
    Means memory
      ((1, 5) ∷ (2, 6) ∷ [])
      (meanings ◌==◌ history (5 ∷ 6 ∷ []))
      (calls alloc ◌==◌ history memory pair)
calls-Means_example = calls-Means ◌==◌ alloc-IsNew history pair-IsList (omega arith)

copy-Leaves_example :
    (r : Leaves memory [] (5 ∷ 6 ∷ []) (copy alloc memory new_sll pair)) × IsList r.heap pair
      ((1, 5) ∷ (2, 6) ∷ [])
    × Apart ((1, 5) ∷ (2, 6) ∷ []) r.cells
copy-Leaves_example = copy-Leaves alloc-IsNew (new_sll-IsList memory) pair-IsList (λ a i. refl)

copy_self-undefined_test : copy_self alloc memory pair ≡ undefined
copy_self-undefined_test = copy_self-undefined alloc pair-IsList

remove_at-undefined_test : remove_at ◌==◌ 1 memory pair ≡ undefined
remove_at-undefined_test = remove_at-undefined ◌==◌ [] 1 5 (2, 6) [] pair-IsList refl
