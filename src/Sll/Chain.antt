-- ===== src/Sll/Chain.antt =====
-- What a list object stands for: the items that the `_next` pointers lead through, and the contract
-- of an operation, which names the elements it leaves and accounts for the memory.
use kadpeer.Prelude.{
  ◌<◌, ◌^◌, ◌≡◌, ◌≢◌, refl, Bool, true, false, ◌||◌, Option, none, some, List, [], ◌∷◌, ◌++◌, ◌==◌,
  length, arith, inl, inr, Bool-cases,
}
use kadpeer.Heap.{Ptr, null, read, write, read-write}
use kadpeer.Outcome.{Outcome, done, ◌>>=◌}
use kadpeer.Sll.{Item, item, Heap, Sll}

-- The address and the element of each item, in order.
abbrev pub Cells {ℓ} : Type ℓ → Type ℓ
Cells T = List (Ptr × T)

module _ {ℓ} {T : Type ℓ} where
  abbrev pub has : Ptr → Cells T → Bool
  has a [] = false
  has a ((p, _) ∷ xs) = (a == p) || has a xs

  infix 40 ◌∈◌ ◌∉◌
  abbrev pub ◌∈◌ : Ptr → Cells T → Type 0
  a ∈ xs = has a xs ≡ true

  abbrev pub ◌∉◌ : Ptr → Cells T → Type 0
  a ∉ xs = has a xs ≡ false

  abbrev pub elements : Cells T → List T
  elements [] = []
  elements ((_, e) ∷ xs) = e ∷ elements xs

  -- The address of the last item, `NULL` where there is none.
  abbrev pub last_of : Cells T → Ptr
  last_of [] = null
  last_of ((p, _) ∷ []) = p
  last_of (_ ∷ y ∷ xs) = last_of (y ∷ xs)

  pub has-append : (a : Ptr) (xs ys : Cells T) → has a (xs ++ ys) ≡ (has a xs || has a ys)
  has-append a [] ys = refl
  has-append a ((p, e) ∷ xs) ys = ground (arith, has-append a xs ys)

  pub elements-append : (xs ys : Cells T) → elements (xs ++ ys) ≡ elements xs ++ elements ys
  elements-append [] ys = refl
  elements-append (x ∷ xs) ys = rw (elements-append xs ys)

  pub last_of-append : (xs : Cells T) (p : Ptr) (e : T) → last_of (xs ++ (p, e) ∷ []) ≡ p
  last_of-append [] p e = refl
  last_of-append (x ∷ []) p e = refl
  last_of-append (x ∷ y ∷ xs) p e = last_of-append (y ∷ xs) p e

  pub last_of-mem : (x : Ptr × T) (xs : Cells T) → last_of (x ∷ xs) ∈ x ∷ xs
  last_of-mem x [] = ground arith
  last_of-mem x (y ∷ xs) = ground (arith, last_of-mem y xs)

  pub last_of-append_cons :
      (xs : Cells T) (y : Ptr × T) (ys : Cells T) → last_of (xs ++ y ∷ ys) ≡ last_of (y ∷ ys)
  last_of-append_cons [] y ys = refl
  last_of-append_cons (x ∷ []) y ys = refl
  last_of-append_cons (x ∷ z ∷ xs) y ys = last_of-append_cons (z ∷ xs) y ys

  pub length-elements : (xs : Cells T) → length (elements xs) ≡ length xs
  length-elements [] = refl
  length-elements (x ∷ xs) = omega (arith, length-elements xs)

  -- From `p` the `_next` pointers lead through the distinct items `xs` to `stop`.
  pub data Chain (h : Heap T) (stop : Ptr) : Ptr → Cells T → Type ℓ where
    nil : Chain h stop stop []
    cons :
        {p q : Ptr} {e : T} {xs : Cells T}
        → p ≢ null
        → read h p ≡ some (item e q)
        → p ∉ xs
        → Chain h stop q xs
        → Chain h stop p ((p, e) ∷ xs)

  pub record IsList (h : Heap T) (l : Sll) (xs : Cells T) : Type ℓ where
    pub chain : Chain h null l.first xs
    pub last : l.last ≡ last_of xs
    pub size : l.size ≡ length xs
    pub small : length xs < 2 ^ 32

  -- Of the memory, an operation that turns the items `xs` into `ys` writes these items only: it takes
  -- the new ones from where nothing was, and gives back those that it drops.
  pub record Accounts (h : Heap T) (xs : Cells T) (g : Heap T) (ys : Cells T) : Type ℓ where
    pub same : (a : Ptr) → a ∉ xs → a ∉ ys → read g a ≡ read h a
    pub freed : (a : Ptr) → a ∈ xs → a ∉ ys → read g a ≡ none
    pub taken : (a : Ptr) → a ∉ xs → a ∈ ys → read h a ≡ none

  -- The call returns, and the list object it leaves stands for the elements `es`.
  pub record Leaves (h : Heap T) (xs : Cells T) (es : List T) (r : Outcome (Heap T × Sll))
      : Type ℓ where
    pub heap : Heap T
    pub object : Sll
    pub cells : Cells T
    pub returns : r ≡ done (heap, object)
    pub is_list : IsList heap object cells
    pub holds : elements cells ≡ es
    pub accounts : Accounts h xs heap cells

module _ {ℓ} {T : Type ℓ} {h : Heap T} {stop : Ptr} where
  pub frame :
      {g : Heap T} {p : Ptr} {xs : Cells T}
      → Chain h stop p xs
      → ((a : Ptr) → a ∈ xs → read g a ≡ read h a)
      → Chain g stop p xs
  frame nil same = nil
  frame (cons {p} ne e out s) same =
      cons ne (ground (arith, same p)) out (frame s λ a i. same a (ground arith))

  -- A write outside the chain leaves it.
  pub frame-write :
      {p : Ptr} {xs : Cells T} (b : Ptr) (c : Option (Item T))
      → Chain h stop p xs
      → b ∉ xs
      → Chain (write h b c) stop p xs
  frame-write b c s out = frame s λ a i. ground (arith, read-write h b c a)

  -- The items are where there is an object, and not at `NULL`.
  pub not_mem_of_none :
      {p : Ptr} {xs : Cells T} (a : Ptr) → Chain h stop p xs → read h a ≡ none → a ∉ xs
  not_mem_of_none a nil unused = refl
  not_mem_of_none a (cons ne e out s) unused = ground (arith, not_mem_of_none a s unused)

  pub not_mem-null : {p : Ptr} {xs : Cells T} → Chain h stop p xs → null ∉ xs
  not_mem-null nil = refl
  not_mem-null (cons ne e out s) = ground (arith, not_mem-null s)

  pub last_of-ne_null :
      {p : Ptr} {x : Ptr × T} {xs : Cells T} → Chain h stop p (x ∷ xs) → last_of (x ∷ xs) ≢ null
  last_of-ne_null {xs = []} (cons ne e out s) = ne
  last_of-ne_null {xs = y ∷ xs} (cons ne e out s) = last_of-ne_null s

module _ {ℓ} {T : Type ℓ} where
  pub Accounts-trans :
      {h g k : Heap T} {xs ys zs : Cells T}
      → Accounts h xs g ys
      → Accounts g ys k zs
      → Accounts h xs k zs
  Accounts-trans {xs} {ys} {zs} u v = record {
    same = λ a o q. elim (Bool-cases (has a ys)) [
      | inl i ↦ ground (arith, u.taken a, v.freed a)
      | inr n ↦ ground (arith, u.same a, v.same a)
    ];
    freed = λ a i q. elim (Bool-cases (has a ys)) [
      | inl j ↦ v.freed a j q
      | inr n ↦ ground (arith, u.freed a, v.same a)
    ];
    taken = λ a o i. elim (Bool-cases (has a ys)) [
      | inl j ↦ u.taken a o j
      | inr n ↦ ground (arith, u.same a, v.taken a)
    ];
  }

  pub Accounts-refl : {h : Heap T} {xs : Cells T} → Accounts h xs h xs
  Accounts-refl = record {
    same = λ a o q. refl;
    freed = λ a i q. absurd (cc);
    taken = λ a o i. absurd (cc);
  }

  pub Leaves-then :
      {h : Heap T} {xs : Cells T} {es : List T} {r : Outcome (Heap T × Sll)}
      → Leaves h xs es r
      → (next : Heap T × Sll → Outcome (Heap T × Sll)) {fs : List T}
      → ((g : Heap T) (l : Sll) (ys : Cells T)
          → IsList g l ys
          → elements ys ≡ es
          → Leaves g ys fs (next (g, l)))
      → Leaves h xs fs (r >>= next)
  Leaves-then u next f =
      let v = f u.heap u.object u.cells u.is_list u.holds in
      record {
        heap = v.heap;
        object = v.object;
        cells = v.cells;
        returns = rw u.returns v.returns;
        is_list = v.is_list;
        holds = v.holds;
        accounts = Accounts-trans u.accounts v.accounts;
      }
