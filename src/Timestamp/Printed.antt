-- ===== src/Timestamp/Printed.antt =====
-- Reading back what `toString` prints.
use kknet.Prelude.{
  ℕ, zero, suc, ◌*◌, ◌/◌, ◌%◌, ◌^◌, ◌<◌, ◌≡◌, refl, sym, ap, ℤ, pos, negsuc, neg, times, quotient,
  remainder, ◌+ℤ◌, times-neg, neg-add, Option, none, some, List, [], ◌∷◌, ◌++◌, take, take-all,
  ◌==◌, if◌then◌else◌, arith, length-append, append-nil,
}
use kknet.Timestamp.Print.{dot, signed}
use kknet.Timestamp.Defs.{Timestamp, micro_seconds_per_second, from_unix_time_micro, to_string}
use kknet.Timestamp.Digits.{read_digits, read_signed, read_signed-signed, length-signed, magnitude}

-- The seconds, a point, and the microseconds, which `fromUnixTIme` puts together.
abbrev read_behind : ℤ → List ℕ → Option Timestamp
read_behind seconds [] = none
read_behind seconds (c ∷ cs) =
    if c == dot then some (from_unix_time_micro seconds (read_signed cs).0) else none

unfoldable pub read_string : List ℕ → Option Timestamp
read_string xs = let p = read_signed xs in read_behind p.0 p.1

-- The value of an `int64_t`.
abbrev pub IsInt64 : ℤ → Type 0
IsInt64 (pos n) = n < 2 ^ 63
IsInt64 (negsuc n) = n < 2 ^ 63

-- The parts of a time: they make it up, and have at most thirteen and six digits.
record Parts (z seconds micros : ℤ) : Type 0 where
  whole : times seconds micro_seconds_per_second +ℤ micros ≡ z
  seconds_size : magnitude seconds < 10 ^ 13
  micros_size : magnitude micros < 10 ^ 6

magnitude-neg : (n : ℕ) → magnitude (neg n) ≡ n
magnitude-neg zero = refl
magnitude-neg (suc n) = refl

parts :
    (z : ℤ)
    → IsInt64 z
    → Parts z (quotient z micro_seconds_per_second) (remainder z micro_seconds_per_second)
parts (pos n) h = record {
  whole = ap pos (omega arith);
  seconds_size = omega arith;
  micros_size = omega arith;
}
parts (negsuc n) h =
    let k = micro_seconds_per_second in
    record {
      whole =
          rw (times-neg (suc n / k) k) (neg-add (suc n / k * k) (suc n % k) (suc n) (omega arith));
      seconds_size = rw (magnitude-neg (suc n / k)) (omega arith);
      micros_size = rw (magnitude-neg (suc n % k)) (omega arith);
    }

module _ (seconds micros : ℤ) (hs : magnitude seconds < 10 ^ 13)
    (hm : magnitude micros < 10 ^ 6) where
  -- The whole text fits into the buffer.
  take-printed :
      take 30 (signed 0 seconds ++ (dot ∷ signed 6 micros))
      ≡ signed 0 seconds ++ (dot ∷ signed 6 micros)
  take-printed =
      let s = length-signed 0 12 seconds hs (omega arith) in
      let m = length-signed 6 5 micros hm (omega arith) in
      take-all 30 (signed 0 seconds ++ (dot ∷ signed 6 micros))
        (rw (length-append (signed 0 seconds) (dot ∷ signed 6 micros)) (omega arith))

  read_string-printed :
      read_string (signed 0 seconds ++ (dot ∷ signed 6 micros))
      ≡ some (from_unix_time_micro seconds micros)
  unfolding read_string read_digits
  read_string-printed =
      let m : read_signed (signed 6 micros) ≡ (micros, []) =
        rw (sym (append-nil (signed 6 micros)))
          (read_signed-signed 6 micros [] (omega arith) (λ acc. refl)) in
      rw (read_signed-signed 0 seconds (dot ∷ signed 6 micros) (omega arith) (λ acc. refl), m) refl

-- A time of an `int64_t` that `toString` prints is the time again when what is before the point is
-- read as seconds, what is behind it as microseconds, with their signs, and both are given to
-- `fromUnixTIme`.
pub read_string-to_string :
    (t : Timestamp) → IsInt64 t.micro_seconds_since_epoch → read_string (to_string t) ≡ some t
unfolding to_string from_unix_time_micro
read_string-to_string t h =
    let z = t.micro_seconds_since_epoch in
    let q = quotient z micro_seconds_per_second in
    let r = remainder z micro_seconds_per_second in
    let p = parts z h in
    rw
      (
        take-printed q r p.seconds_size p.micros_size,
        read_string-printed q r p.seconds_size p.micros_size,
        p.whole,
      )
      refl
