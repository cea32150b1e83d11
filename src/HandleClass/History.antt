-- ===== src/HandleClass/History.antt =====
-- Programs that keep the rules of the language with their handles (include/common/HandleClass.h).
use kadpeer.Prelude.{
  ℕ, ◌^◌, ◌≤◌, ◌<◌, ◌≡◌, ◌⊎◌, inl, inr, refl, ap, sym, true, ◌||◌, none, some, List, [], ◌∷◌, ◌==◌,
  arith, Bool-cases, Option-cases,
}
use kadpeer.Threads.{sum_below-eq_zero}
use kadpeer.Heap.{Ptr, null, read, IsNew}
use kadpeer.Outcome.{Outcome, done}
use kadpeer.HandleClass.{
  Objects, Program, copy, assign, clear, Action, handle_new, handle_pointer, handle_copy,
  handle_end, handle_assign, handle_clear, act, allowed, acts, all_allowed, is_some,
}
use kadpeer.HandleClass.Counted.{
  live, handles, points_to, IsCounted, Keeps, held, construct-Keeps, destroy-Keeps, repoint-Keeps,
  construct_new-Keeps,
}

module _ (n : ℕ) (small : n < 2 ^ 32) (s : Program) (count : IsCounted n s) where
  -- A pointer to an object that is there is one that some handle points to.
  counted_there :
      (p : Ptr)
      → (p == null || is_some (read s.objects p)) ≡ true
      → (p ≡ null) ⊎ (1 ≤ handles n s p)
  counted_there p h = elim (Bool-cases (p == null)) [
    | inl e ↦ inl (ground arith)
    | inr ne ↦ inr (ground (arith, count p))
  ]

  copy-Keeps :
      (i j : ℕ) {p : Ptr}
      → i < n
      → j < n
      → s.pointee i ≡ none
      → s.pointee j ≡ some p
      → Keeps n (copy i j s)
  unfolding copy
  copy-Keeps i j {p} low low' fresh at =
      let k = construct-Keeps n small s count i p low fresh (held n small s count j low' at) in
      record { next = k.next; returns = rw at k.returns; is_counted = k.is_counted }

  unchanged : {r : Outcome Program} → r ≡ done s → Keeps n r
  unchanged e = record { next = s; returns = e; is_counted = count }

  assign-Keeps :
      (i j : ℕ) {p q : Ptr}
      → i < n
      → j < n
      → s.pointee i ≡ some p
      → s.pointee j ≡ some q
      → Keeps n (assign i j s)
  unfolding assign
  assign-Keeps i j {p} {q} low low' at at' = elim (Bool-cases (p == q)) [
    | inl same ↦ unchanged (rw (at, at', same) refl)
    | inr other ↦
        let k =
          repoint-Keeps n small s count i p q low at (ground arith)
            (held n small s count j low' at') in
        record { next = k.next; returns = rw (at, at', other) k.returns; is_counted = k.is_counted }
  ]

  clear-Keeps : (i : ℕ) {p : Ptr} → i < n → s.pointee i ≡ some p → Keeps n (clear i s)
  unfolding clear
  clear-Keeps i {p} low at = elim (Bool-cases (p == null)) [
    | inl same ↦ unchanged (rw (at, same) refl)
    | inr other ↦
        let k = repoint-Keeps n small s count i p null low at (ground arith) (inl refl) in
        record { next = k.next; returns = rw (at, other) k.returns; is_counted = k.is_counted }
  ]

  act-Keeps :
      {alloc : Objects → Ptr} (a : Action)
      → IsNew alloc
      → allowed n a s ≡ true
      → Keeps n (act alloc a s)
  unfolding act allowed
  act-Keeps (handle_new i) new ok =
      construct_new-Keeps n small s count i new (ground arith) (ground arith)
  act-Keeps (handle_pointer i p) new ok =
      construct-Keeps n small s count i p (ground arith) (ground arith)
        (counted_there p (ground arith))
  act-Keeps (handle_copy i j) new ok = elim (Option-cases (s.pointee j)) [
    | inl off ↦ absurd (ground arith)
    | inr (p, at) ↦ copy-Keeps i j (ground arith) (ground arith) (ground arith) at
  ]
  act-Keeps (handle_end i) new ok = elim (Option-cases (s.pointee i)) [
    | inl off ↦ absurd (ground arith)
    | inr (p, at) ↦ destroy-Keeps n small s count i (ground arith) at
  ]
  act-Keeps (handle_assign i j) new ok = elim (Option-cases (s.pointee i)) [
    | inl off ↦ absurd (ground arith)
    | inr (p, at) ↦ elim (Option-cases (s.pointee j)) [
      | inl off ↦ absurd (ground arith)
      | inr (q, at') ↦ assign-Keeps i j (ground arith) (ground arith) at at'
    ]
  ]
  act-Keeps (handle_clear i) new ok = elim (Option-cases (s.pointee i)) [
    | inl off ↦ absurd (ground arith)
    | inr (p, at) ↦ clear-Keeps i (ground arith) at
  ]

-- From a state in which there are the objects that some handle points to, each with their number
-- as its count, a program with fewer than 2 ^ 32 handles that keeps the rules of the language,
-- with a `new` that returns unused addresses, reads no object after its end and deletes none
-- twice: each of its actions returns. After them it is in such a state again.
pub acts-Keeps :
    {alloc : Objects → Ptr} (n : ℕ) (as_ : List Action) (s : Program)
    → n < 2 ^ 32
    → IsNew alloc
    → IsCounted n s
    → all_allowed alloc n as_ s ≡ true
    → Keeps n (acts alloc as_ s)
unfolding acts all_allowed
acts-Keeps n [] s small new count ok = record { next = s; returns = refl; is_counted = count }
acts-Keeps {alloc} n (a ∷ as_) s small new count ok =
    let k = act-Keeps n small s count a new (ground arith) in
    let rest = acts-Keeps n as_ k.next small new k.is_counted (ground (arith, k.returns)) in
    record { next = rest.next; returns = rw (k.returns) rest.returns; is_counted = rest.is_counted }

-- The program that has no handles yet.
pub no_handles-IsCounted : (n : ℕ) → IsCounted n (record { objects = []; pointee = λ i. none })
unfolding read
no_handles-IsCounted n a ne =
    ap live (sym (sum_below-eq_zero (points_to a) n (λ i. none) (λ i low. refl)))
