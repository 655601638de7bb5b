-- ===== src/Timestamp/Tests.antt =====
-- Runs of the operations of a Timestamp.
use kknet.Prelude.{◌≡◌, refl, true, false, ℤ, pos, negsuc, some, [], ◌∷◌, arith}
use kknet.Timestamp.Print.{digits, signed, spaced}
use kknet.Timestamp.Defs.{
  Timestamp, from_unix_time_micro, from_unix_time, get_seconds_since_epoch, valid, less, add_time,
  to_string, to_formatted_string, Tm,
}
use kknet.Timestamp.Printed.{read_string, read_string-to_string}

-- `12.000345`.
prints :
    to_string (from_unix_time_micro (pos 12) (pos 345))
    ≡ 49 ∷ 50 ∷ 46 ∷ 48 ∷ 48 ∷ 48 ∷ 51 ∷ 52 ∷ 53 ∷ []
unfolding to_string from_unix_time_micro digits signed
prints = refl

-- A microsecond before the epoch is `0.-00001`.
prints_negative :
    to_string (record { micro_seconds_since_epoch = negsuc 0 })
    ≡ 48 ∷ 46 ∷ 45 ∷ 48 ∷ 48 ∷ 48 ∷ 48 ∷ 49 ∷ []
unfolding to_string digits signed
prints_negative = refl

-- Half a second before the epoch is in the second 0.
rounds : get_seconds_since_epoch (add_time (from_unix_time (pos 0)) (negsuc 499999)) ≡ pos 0
unfolding get_seconds_since_epoch add_time from_unix_time from_unix_time_micro
rounds = refl

is_valid : valid (from_unix_time (pos 0)) ≡ false
unfolding valid from_unix_time from_unix_time_micro
is_valid = refl

abbrev sooner : Timestamp
sooner = record { micro_seconds_since_epoch = negsuc 1500000 }

orders : less sooner (from_unix_time (pos 0)) ≡ true
unfolding less from_unix_time from_unix_time_micro
orders = refl

-- The calendar on the first day.
abbrev first_day : ℤ → Tm
first_day z = record {
  tm_year = pos 70;
  tm_mon = pos 0;
  tm_mday = pos 1;
  tm_hour = pos 0;
  tm_min = pos 0;
  tm_sec = z;
}

-- `19700101 00:00:07`.
formats :
    to_formatted_string first_day (from_unix_time (pos 7)) false
    ≡ 49 ∷ 57 ∷ 55 ∷ 48 ∷ 48 ∷ 49 ∷ 48 ∷ 49 ∷ 32 ∷ 48 ∷ 48 ∷ 58 ∷ 48 ∷ 48 ∷ 58 ∷ 48 ∷ 55 ∷ []
unfolding to_formatted_string from_unix_time from_unix_time_micro digits signed spaced
formats = refl

read_string-to_string_example : read_string (to_string sooner) ≡ some sooner
read_string-to_string_example = read_string-to_string sooner (omega arith)
