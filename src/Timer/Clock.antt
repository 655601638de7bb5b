-- ===== src/Timer/Clock.antt =====
-- src/reactor/TimeEvent.cpp: the time for which `resetTimerfd` arms the descriptor.
use kknet.Prelude.{
  ℕ, suc, ◌+◌, ◌-◌, ◌*◌, ◌/◌, ◌%◌, ◌≤◌, ◌<◌, ◌≡◌, ◌⊎◌, true, false, zero, ap, sym, refl, inl, inr,
  Bool-cases, ℤ, pos, negsuc, neg, ◌+ℤ◌, times, quotient, remainder, ltb, ltb-true, ltb-false,
  less_than, arith, if◌then◌else◌,
}
use kknet.Timestamp.Digits.{magnitude}
use kknet.Timestamp.Defs.{Timestamp, micro_seconds_per_second}

pub record Timespec : Type 0 where
  pub tv_sec : ℤ
  pub tv_nsec : ℤ

abbrev pub negate : ℤ → ℤ
negate (pos n) = neg n
negate (negsuc n) = pos (suc n)

-- At least 100 microseconds.
abbrev pub clamp : ℤ → ℤ
clamp microseconds = if less_than microseconds (pos 100) then pos 100 else microseconds

-- `now` is what `Timestamp::now` gives.
unfoldable pub how_much_time_from_now : Timestamp → Timestamp → Timespec
how_much_time_from_now now when =
    let microseconds =
      clamp (when.micro_seconds_since_epoch +ℤ negate now.micro_seconds_since_epoch) in
    record {
      tv_sec = quotient microseconds micro_seconds_per_second;
      tv_nsec = times (remainder microseconds micro_seconds_per_second) 1000;
    }

-- What `timerfd_settime` takes: whole seconds and less than a second in nanoseconds, not both 0.
pub record IsArming (microseconds : ℕ) (ts : Timespec) : Type 0 where
  pub seconds : ℕ
  pub nanoseconds : ℕ
  pub sec_is : ts.tv_sec ≡ pos seconds
  pub nsec_is : ts.tv_nsec ≡ pos nanoseconds
  pub below_second : nanoseconds < 1000 * 1000 * 1000
  pub exact : seconds * (1000 * 1000 * 1000) + nanoseconds ≡ microseconds * 1000

clamped : (z : ℤ) → (n : ℕ) × (clamp z ≡ pos n) × (100 ≤ n)
clamped (pos n) = elim (Bool-cases (less_than (pos n) (pos 100))) [
  | inl e ↦ (100, rw e refl, omega arith)
  | inr e ↦ (n, rw e refl, ground arith)
]
clamped (negsuc n) = (100, refl, omega arith)

-- The microseconds from a time to another one, or 100 when there are fewer.
abbrev pub IsWait : ℕ → ℤ → ℤ → Type 0
IsWait n now when =
    (100 ≤ n) × ((now +ℤ pos n ≡ when) ⊎ ((n ≡ 100) × (less_than when (now +ℤ pos 100) ≡ true)))

lt_of_ltb : (a b : ℕ) → ltb a b ≡ true → a < b
lt_of_ltb a b h = ground arith

ge_of_ltb : (a b : ℕ) → ltb a b ≡ false → b ≤ a
ge_of_ltb a b h = ground arith

from_pos : {a b : ℕ} → pos a ≡ pos b → a ≡ b
from_pos {a} {b} e = ap magnitude e

clamp_cases :
    (z : ℤ) (n : ℕ) → clamp z ≡ pos n → (z ≡ pos n) ⊎ ((n ≡ 100) × (less_than z (pos 100) ≡ true))
clamp_cases z n e = elim (Bool-cases (less_than z (pos 100))) [
  | inl l ↦ inr (sym (from_pos (rw l at e)), l)
  | inr g ↦ inl (rw g at e)
]

-- The sum with a difference.
add_difference : (now when : ℤ) (n : ℕ) → when +ℤ negate now ≡ pos n → now +ℤ pos n ≡ when
add_difference (pos zero) (pos b) n e = ap pos (omega (arith, from_pos e))
add_difference (pos (suc a)) (pos b) n e = elim (Bool-cases (ltb a b)) [
  | inl l ↦
      let k : b - suc a ≡ n = from_pos (rw l at e) in
      let m : a < b = lt_of_ltb a b l in ap pos (omega arith)
  | inr g ↦ absurd (cc (rw g at e))
]
add_difference (pos zero) (negsuc b) n e =
    let g : ltb b 0 ≡ false = ltb-false b 0 (omega arith) in absurd (cc (rw g at e))
add_difference (pos (suc a)) (negsuc b) n e = absurd (cc e)
add_difference (negsuc a) (pos b) n e =
    let k : b + suc a ≡ n = from_pos e in rw (ltb-true a n (omega arith)) (ap pos (omega arith))
add_difference (negsuc a) (negsuc b) n e = elim (Bool-cases (ltb b (suc a))) [
  | inl l ↦
      let k : suc a - suc b ≡ n = from_pos (rw l at e) in
      let m : b < suc a = lt_of_ltb b (suc a) l in
      rw (ltb-false a n (omega arith)) (ap negsuc (omega arith))
  | inr g ↦ absurd (cc (rw g at e))
]

-- A difference below 100.
below_hundred :
    (now when : ℤ)
    → less_than (when +ℤ negate now) (pos 100) ≡ true
    → less_than when (now +ℤ pos 100) ≡ true
below_hundred (pos zero) (pos b) e = ground arith
below_hundred (pos (suc a)) (pos b) e = elim (Bool-cases (ltb a b)) [
  | inl l ↦ ground arith
  | inr l ↦ ground arith
]
below_hundred (pos zero) (negsuc b) e = refl
below_hundred (pos (suc a)) (negsuc b) e = refl
below_hundred (negsuc a) (pos b) e =
    let m : b + suc a < 100 = lt_of_ltb (b + suc a) 100 e in
    rw (ltb-true a 100 (omega arith)) (ltb-true b (100 - suc a) (omega arith))
below_hundred (negsuc a) (negsuc b) e = elim (Bool-cases (ltb a 100)) [
  | inl l ↦ rw l refl
  | inr g ↦ rw g (elim (Bool-cases (ltb b (suc a))) [
    | inl m ↦
        let k : suc a - suc b < 100 = lt_of_ltb (suc a - suc b) 100 (rw m at e) in
        ltb-true (a - 100) b (omega (arith, lt_of_ltb b (suc a) m, ge_of_ltb a 100 g))
    | inr m ↦ ltb-true (a - 100) b (omega (arith, ge_of_ltb b (suc a) m))
  ])
]

-- Whatever the times are, on integers without a bound: the descriptor is armed for the microseconds
-- from now until then exactly, or for 100 when there are fewer, in whole seconds and less than a
-- second in nanoseconds. So it is never disarmed.
pub how_much_time_from_now-IsArming :
    (now when : Timestamp)
    → (n : ℕ) × IsWait n now.micro_seconds_since_epoch when.micro_seconds_since_epoch
      × IsArming n (how_much_time_from_now now when)
unfolding how_much_time_from_now
how_much_time_from_now-IsArming now when =
    let z = when.micro_seconds_since_epoch +ℤ negate now.micro_seconds_since_epoch in
    let (n, e, h) = clamped z in
    (
      n,
      (
        h,
        elim (clamp_cases z n e) [
          | inl x ↦
              inl (add_difference now.micro_seconds_since_epoch when.micro_seconds_since_epoch n x)
          | inr (x, l) ↦
              inr (x, below_hundred now.micro_seconds_since_epoch when.micro_seconds_since_epoch l)
        ],
      ),
      record {
        seconds = n / micro_seconds_per_second;
        nanoseconds = n % micro_seconds_per_second * 1000;
        sec_is = rw e refl;
        nsec_is = rw e refl;
        below_second = omega arith;
        exact = omega arith;
      },
    )
