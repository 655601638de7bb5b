-- ===== src/Timestamp/Defs.antt =====
-- A Timestamp: its operations and what it prints. The calendar is a parameter. A result outside of
-- an int64_t, which is undefined in C++, is left out.
use kknet.Prelude.{
  ℕ, ◌-◌, Bool, ℤ, pos, times, quotient, remainder, ◌+ℤ◌, List, ◌∷◌, ◌++◌, less_than, equals,
  if◌then◌else◌,
}
use kknet.Timestamp.Print.{signed, spaced, dot, snprintf}

pub record Timestamp : Type 0 where
  pub micro_seconds_since_epoch : ℤ

abbrev pub micro_seconds_per_second : ℕ
micro_seconds_per_second = 1000000

unfoldable pub valid : Timestamp → Bool
valid t = less_than (pos 0) t.micro_seconds_since_epoch

abbrev pub invalid : Timestamp
invalid = record { micro_seconds_since_epoch = pos 0 }

unfoldable pub get_seconds_since_epoch : Timestamp → ℤ
get_seconds_since_epoch t = quotient t.micro_seconds_since_epoch micro_seconds_per_second

-- `fromUnixTIme`, with the microseconds, and `fromUnixTime`.
unfoldable pub from_unix_time_micro : ℤ → ℤ → Timestamp
from_unix_time_micro time micro_seconds = record {
  micro_seconds_since_epoch = times time micro_seconds_per_second +ℤ micro_seconds;
}

unfoldable pub from_unix_time : ℤ → Timestamp
from_unix_time time = from_unix_time_micro time (pos 0)

-- `now`, where `gettimeofday` has given the seconds and the microseconds.
unfoldable pub now : ℤ → ℤ → Timestamp
now tv_sec tv_usec = record {
  micro_seconds_since_epoch = times tv_sec micro_seconds_per_second +ℤ tv_usec;
}

-- `addTime`, where `delta` is the conversion of the seconds to whole microseconds.
unfoldable pub add_time : Timestamp → ℤ → Timestamp
add_time t delta = record { micro_seconds_since_epoch = t.micro_seconds_since_epoch +ℤ delta }

-- `operator<` and `operator==`.
unfoldable pub less : Timestamp → Timestamp → Bool
less a b = less_than a.micro_seconds_since_epoch b.micro_seconds_since_epoch

unfoldable pub equal : Timestamp → Timestamp → Bool
equal a b = equals a.micro_seconds_since_epoch b.micro_seconds_since_epoch

unfoldable pub to_string : Timestamp → List ℕ
to_string t =
    let seconds = quotient t.micro_seconds_since_epoch micro_seconds_per_second in
    let microseconds = remainder t.micro_seconds_since_epoch micro_seconds_per_second in
    snprintf (32 - 1) (signed 0 seconds ++ (dot ∷ signed 6 microseconds))

-- `struct tm`, as far as it is printed.
pub record Tm : Type 0 where
  pub tm_year : ℤ
  pub tm_mon : ℤ
  pub tm_mday : ℤ
  pub tm_hour : ℤ
  pub tm_min : ℤ
  pub tm_sec : ℤ

abbrev space : ℕ
space = 32

abbrev colon : ℕ
colon = 58

abbrev pub date_and_time : Tm → List ℕ
date_and_time tm =
    spaced 4 (tm.tm_year +ℤ pos 1900)
    ++ (signed 2 (tm.tm_mon +ℤ pos 1)
        ++ (signed 2 tm.tm_mday
            ++ (space
                ∷ (signed 2 tm.tm_hour
                    ++ (colon ∷ (signed 2 tm.tm_min ++ (colon ∷ signed 2 tm.tm_sec)))))))

-- `toFormattedString`, where `gmtime` is `gmtime_r`.
unfoldable pub to_formatted_string : (ℤ → Tm) → Timestamp → Bool → List ℕ
to_formatted_string gmtime t show_microseconds =
    let tm = gmtime (quotient t.micro_seconds_since_epoch micro_seconds_per_second) in
    let microseconds = remainder t.micro_seconds_since_epoch micro_seconds_per_second in
    if show_microseconds
    then snprintf 64 (date_and_time tm ++ (dot ∷ signed 6 microseconds))
    else snprintf 64 (date_and_time tm)
