-- ===== src/HandleClass/Counted.antt =====
-- The counts of the objects of include/common/HandleClass.h against the handles of a program.
use kadpeer.Prelude.{
  ℕ, zero, suc, ◌+◌, ◌-◌, ◌%◌, ◌^◌, ◌≤◌, ◌<◌, ◌≡◌, ◌≢◌, ◌⊎◌, inl, inr, refl, ap, ◌∙◌, Bool, false,
  Option, none, some, ◌==◌, if◌then◌else◌, arith, Bool-cases,
}
use kadpeer.Threads.{put, sum_below, sum_below-put, le-sum_below, sum_below-le}
use kadpeer.Heap.{Ptr, null, read, write, read-write, load-some, IsNew}
use kadpeer.Outcome.{Outcome, done}
use kadpeer.HandleClass.{
  Objects, Program, add_reference, remove_reference, init, release, construct, construct_new,
  destroy, repoint,
}

-- What an object with `k` handles is.
abbrev pub live : ℕ → Option ℕ
live zero = none
live (suc k) = some (suc k)

abbrev pub one_if : Bool → ℕ
one_if b = if b then 1 else 0

abbrev pub points_to : Ptr → Option Ptr → ℕ
points_to a none = 0
points_to a (some p) = one_if (a == p)

-- The number of handles at an address.
abbrev pub handles : ℕ → Program → Ptr → ℕ
handles n s a = sum_below (points_to a) n s.pointee

abbrev pub IsCounted : ℕ → Program → Type 0
IsCounted n s = (a : Ptr) → a ≢ null → read s.objects a ≡ live (handles n s a)

abbrev Counts : Objects → (Ptr → ℕ) → Type 0
Counts h c = (a : Ptr) → a ≢ null → read h a ≡ live (c a)

live-pos : (k : ℕ) → 1 ≤ k → live k ≡ some k
live-pos zero h = absurd (omega arith)
live-pos (suc k) h = refl

-- One more handle at `p`.
init-Counts :
    (h : Objects) (c : Ptr → ℕ) (p : Ptr)
    → Counts h c
    → (p ≡ null) ⊎ (1 ≤ c p)
    → c p + 1 < 2 ^ 32
    → (g : Objects) × (init h p ≡ done g) × Counts g (λ a. c a + one_if (a == p))
unfolding init add_reference
init-Counts h c p count ok small = elim (Bool-cases (p == null)) [
  | inl e ↦ (h, rw e refl, λ a ne. ground (arith, count a))
  | inr ne ↦
      let here : p ≢ null = ground arith in
      let held : read h p ≡ some (c p) = ground (arith, count p, live-pos (c p)) in
      (
        write h p (some (c p + 1)),
        ground (arith, load-some h p here held),
        λ a na. ground (arith, count a, read-write h p (some (c p + 1)) a, live-pos (c p + 1)),
      )
]

decremented :
    (k : ℕ)
    → 1 ≤ k
    → k < 2 ^ 32
    → (if (k + 2 ^ 32 - 1) % 2 ^ 32 == 0 then none else some ((k + 2 ^ 32 - 1) % 2 ^ 32))
      ≡ live (k - 1)
decremented zero pos small = absurd (omega arith)
decremented (suc zero) pos small = refl
decremented (suc (suc k)) pos small = ground (arith, live-pos (suc k))

-- One handle less at `p`.
release-Counts :
    (h : Objects) (c : Ptr → ℕ) (p : Ptr)
    → Counts h c
    → (p ≡ null) ⊎ (1 ≤ c p)
    → c p < 2 ^ 32
    → (g : Objects) × (release h p ≡ done g) × Counts g (λ a. c a - one_if (a == p))
unfolding release remove_reference
release-Counts h c p count ok small = elim (Bool-cases (p == null)) [
  | inl e ↦ (h, rw e refl, λ a ne. ground (arith, count a))
  | inr ne ↦
      let here : p ≢ null = ground arith in
      let held : read h p ≡ some (c p) = ground (arith, count p, live-pos (c p)) in
      (
        write h p (live (c p - 1)),
        rw (ne, load-some h p here held, decremented (c p) (ground arith) small) refl,
        λ a na. ground (arith, count a, read-write h p (live (c p - 1)) a),
      )
]

self : (p : Ptr) → points_to p (some p) ≡ 1
self p = ground arith

points_to-le : (a : Ptr) (o : Option Ptr) → points_to a o ≤ 1
points_to-le a o = ground arith

-- A step that returns, and leaves each object with its count.
pub record Keeps (n : ℕ) (r : Outcome Program) : Type 0 where
  pub next : Program
  pub returns : r ≡ done next
  pub is_counted : IsCounted n next

module _ (n : ℕ) (small : n < 2 ^ 32) (s : Program) (count : IsCounted n s) where
  -- The handles at `a` after the handle `i` points to `o`.
  handles-put :
      (i : ℕ) (o : Option Ptr) (h : Objects) (a : Ptr)
      → i < n
      → handles n (record { objects = h; pointee = put s.pointee i o }) a
          + points_to a (s.pointee i)
        ≡ handles n s a + points_to a o
  handles-put i o h a low = sum_below-put (points_to a) n s.pointee i o low

  handles-le :
      (i : ℕ) (o : Option Ptr) (h : Objects) (a : Ptr)
      → handles n (record { objects = h; pointee = put s.pointee i o }) a ≤ n
  handles-le i o h a = sum_below-le (points_to a) n (put s.pointee i o) (points_to-le a)

  -- The object of a handle is there.
  pub held : (j : ℕ) {p : Ptr} → j < n → s.pointee j ≡ some p → (p ≡ null) ⊎ (1 ≤ handles n s p)
  held j {p} low at = inr (ground (arith, le-sum_below (points_to p) n s.pointee j low))

  pub construct-Keeps :
      (i : ℕ) (p : Ptr)
      → i < n
      → s.pointee i ≡ none
      → (p ≡ null) ⊎ (1 ≤ handles n s p)
      → Keeps n (construct i p s)
  unfolding construct
  construct-Keeps i p low fresh ok =
      let (g, e, counts) = init-Counts s.objects (handles n s) p count ok (
        omega (
          arith,
          handles-put i (some p) s.objects p low,
          handles-le i (some p) s.objects p,
          ap (points_to p) fresh,
          self p,
        )) in
      record {
        next = record { objects = g; pointee = put s.pointee i (some p) };
        returns = rw e refl;
        is_counted = λ a ne.
            counts a ne
            ∙ ap live (omega (arith, handles-put i (some p) g a low, ap (points_to a) fresh));
      }

  pub destroy-Keeps : (i : ℕ) {p : Ptr} → i < n → s.pointee i ≡ some p → Keeps n (destroy i s)
  unfolding destroy
  destroy-Keeps i {p} low at =
      let (g, e, counts) =
        release-Counts s.objects (handles n s) p count (held i low at)
          (omega (arith, sum_below-le (points_to p) n s.pointee (points_to-le p))) in
      record {
        next = record { objects = g; pointee = put s.pointee i none };
        returns = rw (at, e) refl;
        is_counted = λ a ne.
            counts a ne ∙ ap live (omega (arith, handles-put i none g a low, ap (points_to a) at));
      }

  pub repoint-Keeps :
      (i : ℕ) (p q : Ptr)
      → i < n
      → s.pointee i ≡ some p
      → p ≢ q
      → (q ≡ null) ⊎ (1 ≤ handles n s q)
      → Keeps n (repoint i p q s)
  unfolding repoint
  repoint-Keeps i p q low at ne ok =
      let (g, e, counts) =
        release-Counts s.objects (handles n s) p count (held i low at)
          (omega (arith, sum_below-le (points_to p) n s.pointee (points_to-le p))) in
      let (k, e', counts') =
        init-Counts g (λ a. handles n s a - one_if (a == p)) q counts (ground arith)
          (ground
            (arith, handles-put i (some q) s.objects q low, handles-le i (some q) s.objects q)) in
      record {
        next = record { objects = k; pointee = put s.pointee i (some q) };
        returns = rw (e, e') refl;
        is_counted = λ a na.
            counts' a na
            ∙ ap live (
                ground (
                  arith,
                  handles-put i (some q) k a low,
                  le-sum_below (points_to a) n s.pointee i low,
                ));
      }

  pub construct_new-Keeps :
      {alloc : Objects → Ptr} (i : ℕ)
      → IsNew alloc
      → i < n
      → s.pointee i ≡ none
      → Keeps n (construct_new alloc i s)
  unfolding construct_new construct init add_reference
  construct_new-Keeps {alloc} i new low fresh =
      let p = alloc s.objects in
      let h = write s.objects p (some 0) in
      let k = write h p (some 1) in
      let there : p ≢ null = new.ne_null s.objects in
      let nobody : handles n s p ≡ 0 = ground (arith, count p, new.unused s.objects) in
      let is_null : (p == null) ≡ false = ground arith in
      let zero_count : read h p ≡ some 0 = ground (arith, read-write s.objects p (some 0) p) in
      record {
        next = record { objects = k; pointee = put s.pointee i (some p) };
        returns = rw (is_null, load-some h p there zero_count) refl;
        is_counted = λ a ne. ground (
          arith,
          count a,
          read-write h p (some 1) a,
          read-write s.objects p (some 0) a,
          handles-put i (some p) k a low,
          live-pos (handles n (record { objects = k; pointee = put s.pointee i (some p) }) a),
        );
      }
