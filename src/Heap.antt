-- ===== src/Heap.antt =====
-- The memory of the containers with pointers (include/common/sll.hh): what `new`, `delete`, `*p` and
-- `p->field = x` do. A heap is the list of its writes, the last one first. The address that `new`
-- returns is a parameter, any function that returns an address other than `NULL` that holds nothing.
use kadpeer.Prelude.{
  ℕ, ◌≡◌, ◌≢◌, refl, List, [], ◌∷◌, Option, none, some, ◌==◌, if◌then◌else◌, arith,
}
use kadpeer.Outcome.{Outcome, done, undefined, ◌>>=◌, access}

abbrev pub Ptr : Type 0
Ptr = ℕ

abbrev pub null : Ptr
null = 0

module _ {ℓ} {N : Type ℓ} where
  unfoldable pub read : List (Ptr × Option N) → Ptr → Option N
  read [] a = none
  read ((p, c) ∷ h) a = if a == p then c else read h a

  -- The assignment of an object to an address; `none` gives the address back.
  unfoldable pub write : List (Ptr × Option N) → Ptr → Option N → List (Ptr × Option N)
  write h p c = (p, c) ∷ h

  -- `*p`, which is undefined at `NULL` and at an address that holds no object.
  unfoldable pub load : List (Ptr × Option N) → Ptr → Outcome N
  load h p = if p == null then undefined else access (read h p)

  -- `delete p`, which does nothing at `NULL`.
  unfoldable pub delete : List (Ptr × Option N) → Ptr → Outcome (List (Ptr × Option N))
  delete h p = if p == null then done h else (load h p >>= λ n. done (write h p none))

  -- What the documentation of `operator new` promises of its address.
  pub record IsNew (alloc : List (Ptr × Option N) → Ptr) : Type ℓ where
    pub ne_null : (h : List (Ptr × Option N)) → alloc h ≢ null
    pub unused : (h : List (Ptr × Option N)) → read h (alloc h) ≡ none

  pub read-write :
      (h : List (Ptr × Option N)) (p : Ptr) (c : Option N) (a : Ptr)
      → read (write h p c) a ≡ (if a == p then c else read h a)
  unfolding read write
  read-write h p c a = refl

  pub load-some :
      (h : List (Ptr × Option N)) (p : Ptr) {n : N}
      → p ≢ null
      → read h p ≡ some n
      → load h p ≡ done n
  unfolding load
  load-some h p ne e = ground arith

  pub load-none : (h : List (Ptr × Option N)) (p : Ptr) → read h p ≡ none → load h p ≡ undefined
  unfolding load
  load-none h p e = ground arith

  pub delete-some :
      (h : List (Ptr × Option N)) (p : Ptr) {n : N}
      → p ≢ null
      → read h p ≡ some n
      → delete h p ≡ done (write h p none)
  unfolding load delete
  delete-some h p ne e = ground arith
