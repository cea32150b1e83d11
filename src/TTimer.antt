-- ===== src/TTimer.antt =====
-- include/common/TTimer.hh and src/common/TTimer.cpp: a stop watch over one of the clocks of the system,
-- and its output. A time is a number of units of 2 ^ -72 seconds, of ticks of `clock()` for `duration`:
-- all the values here that a `double` or a `float` takes are such numbers. How these types round is a
-- parameter, and so is what the system's clocks read.
pub mod Output
use kadpeer.Prelude.{ℕ, zero, suc, ◌+◌, ◌-◌, ◌*◌, ◌/◌, ◌%◌, [], ◌∷◌, ◌++◌, if◌then◌else◌, ltb}
use kadpeer.Prelude.Int.{ℤ, pos, negsuc}
use kadpeer.Text.{Text}

-- `timetype_t`
pub data TimeType : Type 0 where
  real_time : TimeType
  cpu_time : TimeType
  user_time : TimeType
  system_time_ : TimeType
  duration : TimeType

-- `struct timeval`
pub record TimeVal : Type 0 where
  pub tv_sec : ℕ
  pub tv_usec : ℕ

-- What `gettimeofday`, `getrusage`, `clock` and `time` give.
pub record Clocks : Type 0 where
  pub of_day : TimeVal
  pub ru_utime : TimeVal
  pub ru_stime : TimeVal
  pub clock : ℕ
  pub time : ℕ

pub record TTimer : Type 0 where
  pub started : ℕ
  pub stopped : ℕ
  pub time_type : TimeType

abbrev pub new_timer : TimeType → TTimer
new_timer t = record { started = 0; stopped = 0; time_type = t }

-- The units of a second.
abbrev pub second : ℕ
second = 4722366482869645213696

-- The arithmetic of `double` and `float`: `sec + usec * 1e-6`, and the difference of two times, which
-- `diff` returns as a `float`.
pub record Floats : Type 0 where
  pub in_seconds : ℕ → ℕ → ℕ
  pub float_difference : ℕ → ℕ → ℤ

unfoldable pub system_time : Floats → TimeType → Clocks → ℕ
system_time fl real_time c = fl.in_seconds c.of_day.tv_sec c.of_day.tv_usec
system_time fl cpu_time c =
    fl.in_seconds (c.ru_utime.tv_sec + c.ru_stime.tv_sec) (c.ru_utime.tv_usec + c.ru_stime.tv_usec)
system_time fl user_time c = fl.in_seconds c.ru_utime.tv_sec c.ru_utime.tv_usec
system_time fl system_time_ c = fl.in_seconds c.ru_stime.tv_sec c.ru_stime.tv_usec
system_time fl duration c = fl.in_seconds c.clock 0

unfoldable pub start_timer : Floats → Clocks → TTimer → TTimer
unfolding system_time
start_timer fl c t =
    let now = system_time fl t.time_type c in record t { started = now; stopped = now }

unfoldable pub stop_timer : Floats → Clocks → TTimer → TTimer
unfolding system_time
stop_timer fl c t = record t { stopped = system_time fl t.time_type c }

abbrev pub current : Clocks → TTimer → ℕ
current c t = c.time

abbrev pub diff : Floats → TTimer → ℤ
diff fl t = fl.float_difference t.stopped t.started

-- `real`, `cpu`, `user` and `sys`
abbrev pub set_type : TimeType → TTimer → TTimer
set_type k t = record t { time_type = k }

-- The output of a number that is not negative, with fuel for one more digit.
unfoldable pub decimal_from : ℕ → ℕ → Text
decimal_from zero n = (n + 48) ∷ []
decimal_from (suc f) n =
    let rest = decimal_from f (n / 10) in
    if ltb n 10 then (n + 48) ∷ [] else rest ++ ((n % 10 + 48) ∷ [])

unfoldable pub decimal : ℕ → Text
unfolding decimal_from
decimal n = decimal_from n n

abbrev pub not_negative : ℤ → ℕ
not_negative (pos n) = n
not_negative (negsuc n) = 0

-- The milliseconds, half a one counts. The product and the sum are exact for the fraction of a `float`,
-- but for a product so small that the sum is below 1 either way.
abbrev pub mseconds : ℕ → ℕ
mseconds time = (time % second * 2000 + second) / (2 * second)

-- The zeros that are put before the milliseconds.
unfoldable pub zeros : ℕ → Text
zeros m = if ltb m 10 then 48 ∷ 48 ∷ [] else if ltb m 100 then 48 ∷ [] else []

-- `operator <<`. The output of a quotient of two numbers as a `double`, and how many ticks a second has,
-- are parameters.
unfoldable pub show_timer : Floats → (ℕ → ℕ → Text) → ℕ → TTimer → Text
unfolding decimal zeros
show_timer fl show_quotient clocks_per_sec t =
    let time = not_negative (diff fl t) in
    let shown =
      decimal (time / second)
      ++ ((44 ∷ (zeros (mseconds time) ++ decimal (mseconds time))) ++ (115 ∷ [])) in
    elim (t.time_type) [
      | duration ↦ show_quotient time (second * clocks_per_sec)
      | real_time ↦ shown
      | cpu_time ↦ shown
      | user_time ↦ shown
      | system_time_ ↦ shown
    ]
