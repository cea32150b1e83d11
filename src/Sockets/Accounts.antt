-- ===== src/Sockets/Accounts.antt =====
-- Who holds which descriptor of the system, and what an opened or closed one changes.
use kadpeer.Prelude.{
  ℕ, ◌≡◌, ◌≢◌, ◌⊎◌, inl, inr, refl, sym, subst, ◌||◌, ◌&&◌, Bool, true, false, not, arith, ◌==◌,
  ==_iff, Bool-cases, fun_ext,
}
use kadpeer.Prelude.Int.{ℤ, ◌==ℤ◌, ==ℤ_iff}
use kadpeer.Sockets.{minus_one}
use kadpeer.Threads.{put}

-- The descriptors that objects hold, those that were lost, those that were open at the start, and those
-- that are open.
pub record Accounts (f : ℕ → ℤ) (lost before now : ℤ → Bool) : Type 0 where
  pub mine : (i : ℕ) → f i ≢ minus_one → (now (f i) ≡ true) × (before (f i) ≡ false)
  pub apart : (i j : ℕ) → i ≢ j → f i ≡ f j → f i ≡ minus_one
  pub owned : (d : ℤ) → now d ≡ true → (before d ≡ true) ⊎ (lost d ≡ true) ⊎ ((i : ℕ) × (f i ≡ d))
  pub older : (d : ℤ) → before d ≡ true → now d ≡ true

-- The lost descriptors after another one is written over `d`.
abbrev pub losing : ℤ → (ℤ → Bool) → ℤ → Bool
losing d lost e = lost e || (e ==ℤ d && not (e ==ℤ minus_one))

module _ {f : ℕ → ℤ} {lost before now : ℤ → Bool} (a : Accounts f lost before now)
    (shut : now minus_one ≡ false) where
  -- A descriptor that is opened for the object `i`, over the one that it had.
  pub Accounts-opens :
      (later : ℤ → Bool) (i : ℕ) (fd : ℤ)
      → now fd ≡ false
      → ((d : ℤ) → later d ≡ (now d || (d ==ℤ fd && not (d ==ℤ minus_one))))
      → Accounts (put f i fd) (losing (f i) lost) before later
  Accounts-opens later i fd fresh opens = record {
    mine = λ j ne.
        ground
          (arith, a.mine j, opens fd, opens (f j), ==ℤ_iff fd fd, ==ℤ_iff fd minus_one, a.older fd);
    apart = λ j k ne e. ground (
      arith,
      a.apart j k ne,
      a.mine j,
      a.mine k,
      ==ℤ_iff (f j) minus_one,
      ==ℤ_iff (f k) minus_one,
    );
    owned = λ d h. elim (Bool-cases (now d)) [
      | inl on ↦ keep d on (a.owned d on)
      | inr off ↦ inr (inr (i, ground (arith, opens d, ==ℤ_iff d fd)))
    ];
    older = λ d h. ground (arith, a.older d h, opens d);
  }
    where
      keep :
          (d : ℤ)
          → now d ≡ true
          → (before d ≡ true) ⊎ (lost d ≡ true) ⊎ ((x : ℕ) × (f x ≡ d))
          → (before d ≡ true) ⊎ (losing (f i) lost d ≡ true) ⊎ ((x : ℕ) × (put f i fd x ≡ d))
      keep d on (inl b) = inl b
      keep d on (inr (inl l)) = inr (inl (rw l refl))
      keep d on (inr (inr (x, e))) = elim (Bool-cases (x == i)) [
        | inl same ↦ inr (inl (ground (arith, ==_iff x i, ==ℤ_iff d (f i), ==ℤ_iff d minus_one)))
        | inr other ↦ inr (inr (x, ground (arith, ==_iff x i)))
      ]

  pub Accounts-closes :
      (later : ℤ → Bool) (i : ℕ)
      → ((d : ℤ) → later d ≡ (now d && not (d ==ℤ f i)))
      → Accounts (put f i minus_one) lost before later
  Accounts-closes later i closes = record {
    mine = λ j ne.
        ground (arith, a.mine j, a.apart j i, closes (f j), ==ℤ_iff (f j) (f i), ==_iff j i);
    apart = λ j k ne e. ground (arith, a.apart j k ne);
    owned = λ d h. keep d h (a.owned d (ground (arith, closes d)));
    older = λ d h.
        ground (arith, a.older d h, a.mine i, closes d, ==ℤ_iff d (f i), ==ℤ_iff (f i) minus_one);
  }
    where
      keep :
          (d : ℤ)
          → later d ≡ true
          → (before d ≡ true) ⊎ (lost d ≡ true) ⊎ ((x : ℕ) × (f x ≡ d))
          → (before d ≡ true) ⊎ (lost d ≡ true) ⊎ ((x : ℕ) × (put f i minus_one x ≡ d))
      keep d on (inl b) = inl b
      keep d on (inr (inl l)) = inr (inl l)
      keep d on (inr (inr (x, e))) =
          inr (inr (x, ground (arith, closes d, ==ℤ_iff d (f i), ==_iff x i)))

pub Accounts-congr :
    {f g : ℕ → ℤ} {lost before now later : ℤ → Bool}
    → Accounts f lost before now
    → ((i : ℕ) → g i ≡ f i)
    → ((d : ℤ) → later d ≡ now d)
    → Accounts g lost before later
Accounts-congr {f} {lost = lost} {before = before} {later = later} a same keeps =
    subst (λ g. Accounts g lost before later) (sym (fun_ext same))
      (subst (λ now. Accounts f lost before now) (sym (fun_ext keeps)) a)

-- Where the object had no descriptor, none is lost.
pub losing-minus_one : (d : ℤ) (lost : ℤ → Bool) → d ≡ minus_one → losing d lost ≡ lost
losing-minus_one d lost e = fun_ext λ x. ground (arith, ==ℤ_iff x d, ==ℤ_iff x minus_one)
