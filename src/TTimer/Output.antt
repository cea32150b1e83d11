-- ===== src/TTimer/Output.antt =====
-- What the output of a timer of src/common/TTimer.cpp says.
use kadpeer.Prelude.{
  ℕ, zero, suc, ◌+◌, ◌-◌, ◌*◌, ◌/◌, ◌%◌, ◌≡◌, ◌≢◌, ◌≤◌, ◌<◌, refl, [], ◌∷◌, ◌++◌, arith, length,
  length-append, ltb, if◌then◌else◌, inl, inr, Bool-cases,
}
use kadpeer.Text.{Text}
use kadpeer.TTimer.{
  TTimer, Floats, second, duration, diff, decimal, decimal_from, mseconds, zeros, show_timer,
  not_negative,
}

-- The number that digits write, after those that stand before them.
abbrev pub read_after : ℕ → Text → ℕ
read_after n [] = n
read_after n (c ∷ cs) = read_after (n * 10 + (c - 48)) cs

read_after-snoc :
    (cs : Text) (n c : ℕ) → read_after n (cs ++ (c ∷ [])) ≡ read_after n cs * 10 + (c - 48)
read_after-snoc [] n c = refl
read_after-snoc (d ∷ cs) n c = read_after-snoc cs (n * 10 + (d - 48)) c

read_after-decimal_from : (f n : ℕ) → n ≤ f → read_after 0 (decimal_from f n) ≡ n
unfolding decimal_from
read_after-decimal_from zero n le = omega arith
read_after-decimal_from (suc f) n le = ground (
  arith,
  read_after-snoc (decimal_from f (n / 10)) 0 (n % 10 + 48),
  read_after-decimal_from f (n / 10),
)

-- The output of a number is read as that number.
pub read_after-decimal : (n : ℕ) → read_after 0 (decimal n) ≡ n
unfolding decimal
read_after-decimal n = read_after-decimal_from n n (omega arith)

one_digit : (f n : ℕ) → n < 10 → length (decimal_from f n) ≡ 1
unfolding decimal_from
one_digit zero n lt = refl
one_digit (suc f) n lt = ground arith

more_digits :
    (f n : ℕ)
    → 10 ≤ n
    → 1 ≤ f
    → length (decimal_from f n) ≡ length (decimal_from (f - 1) (n / 10)) + 1
unfolding decimal_from
more_digits zero n le pos_ = omega arith
more_digits (suc f) n le pos_ =
    ground (arith, length-append (decimal_from f (n / 10)) ((n % 10 + 48) ∷ []))

two_digits : (f n : ℕ) → 10 ≤ n → n < 100 → 1 ≤ f → length (decimal_from f n) ≡ 2
two_digits f n le lt pos_ = omega (arith, more_digits f n le pos_, one_digit (f - 1) (n / 10))

three_digits : (f n : ℕ) → 100 ≤ n → n < 1000 → 2 ≤ f → length (decimal_from f n) ≡ 3
three_digits f n le lt pos_ = omega (arith, more_digits f n, two_digits (f - 1) (n / 10))

four_digits : (f : ℕ) → 3 ≤ f → length (decimal_from f 1000) ≡ 4
four_digits f pos_ = omega (arith, more_digits f 1000, three_digits (f - 1) 100)

length-zeros : (m : ℕ) → length (zeros m) ≡ (if ltb m 10 then 2 else if ltb m 100 then 1 else 0)
unfolding zeros
length-zeros m = ground arith

length-decimal :
    (m : ℕ)
    → m ≤ 1000
    → length (decimal m)
      ≡ (if ltb m 10 then 1 else if ltb m 100 then 2 else if ltb m 1000 then 3 else 4)
unfolding decimal
length-decimal m le = elim (Bool-cases (ltb m 10)) [
  | inl one ↦ ground (arith, one_digit m m)
  | inr more ↦ elim (Bool-cases (ltb m 100)) [
    | inl two ↦ ground (arith, two_digits m m)
    | inr three_ ↦ ground (arith, three_digits m m, four_digits m)
  ]
]

length-fraction : (m : ℕ) → m ≤ 1000 → length (zeros m ++ decimal m) ≡ (if ltb m 1000 then 3 else 4)
length-fraction m le =
    rw (length-append (zeros m) (decimal m), length-zeros m, length-decimal m le) (ground arith)

read_after-fraction : (m : ℕ) → read_after 0 (zeros m ++ decimal m) ≡ m
unfolding zeros
read_after-fraction m = ground (arith, read_after-decimal m)

shown-time :
    (fl : Floats) (show_quotient : ℕ → ℕ → Text) (ticks : ℕ) (t : TTimer)
    → t.time_type ≢ duration
    → let time = not_negative (diff fl t) in
      show_timer fl show_quotient ticks t
      ≡ decimal (time / second)
        ++ ((44 ∷ (zeros (mseconds time) ++ decimal (mseconds time))) ++ (115 ∷ []))
unfolding show_timer
shown-time fl show_quotient ticks t ne = ground arith

mseconds-le : (time : ℕ) → mseconds time ≤ 1000
mseconds-le time = omega arith

rounded : (time : ℕ) → time / second * 1000 + mseconds time ≡ (time * 2000 + second) / (2 * second)
rounded time = omega arith

short_fraction : (time : ℕ) → ltb (mseconds time) 1000 ≡ ltb (time % second * 2000) (1999 * second)
short_fraction time = ground arith

-- The output of a timer that does not count ticks is a number of seconds, a comma, a number of
-- milliseconds and an s. Together they are the difference as a `float`, or 0 for a negative one, rounded
-- to a millisecond. The milliseconds have three digits, but for a difference within half of one before
-- a full second, where they have four.
pub show_timer_lem :
    (fl : Floats) (show_quotient : ℕ → ℕ → Text) (ticks : ℕ) (t : TTimer)
    → t.time_type ≢ duration
    → let time = not_negative (diff fl t) in
      (s : Text) × (m : Text) × (show_timer fl show_quotient ticks t
        ≡ s ++ ((44 ∷ m) ++ (115 ∷ [])))
      × (read_after 0 s * 1000 + read_after 0 m ≡ (time * 2000 + second) / (2 * second))
      × (length m ≡ (if ltb (time % second * 2000) (1999 * second) then 3 else 4))
show_timer_lem fl show_quotient ticks t ne =
    let time = not_negative (diff fl t) in
    (
      decimal (time / second),
      zeros (mseconds time) ++ decimal (mseconds time),
      shown-time fl show_quotient ticks t ne,
      rw (read_after-decimal (time / second), read_after-fraction (mseconds time)) (rounded time),
      rw (length-fraction (mseconds time) (mseconds-le time), short_fraction time) refl,
    )
