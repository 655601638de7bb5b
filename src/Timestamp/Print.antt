-- ===== src/Timestamp/Print.antt =====
-- src/util/Timestamp.cpp: the conversions of `snprintf`, for the numbers of a 64-bit integer.
use kknet.Prelude.{
  ℕ, zero, suc, ◌+◌, ◌-◌, ◌/◌, ◌%◌, ℤ, pos, negsuc, List, [], ◌∷◌, ◌++◌, length, take, ltb,
  if◌then◌else◌,
}

-- The characters `-`, `.` and `0`.
abbrev pub minus : ℕ
minus = 45

abbrev pub dot : ℕ
dot = 46

abbrev pub nought : ℕ
nought = 48

-- The decimal digits, at most `fuel` of them. Twenty are enough for 64 bits.
unfoldable pub digits : ℕ → ℕ → List ℕ
digits zero n = []
digits (suc fuel) n =
    let rest = digits fuel (n / 10) in
    if ltb n 10 then (nought + n) ∷ [] else rest ++ ((nought + n % 10) ∷ [])

abbrev pub fuel : ℕ
fuel = 20

abbrev pub zeros : ℕ → List ℕ
zeros zero = []
zeros (suc n) = nought ∷ zeros n

abbrev pub padded : ℕ → List ℕ → List ℕ
padded width xs = zeros (width - length xs) ++ xs

-- `%0wd`, where `w` is the width with the sign; `%d` is the same with the width 0.
unfoldable pub signed : ℕ → ℤ → List ℕ
signed width (pos n) = padded width (digits fuel n)
signed width (negsuc n) = minus ∷ padded (width - 1) (digits fuel (suc n))

abbrev pub spaces : ℕ → List ℕ
spaces zero = []
spaces (suc n) = 32 ∷ spaces n

-- `%wd`, where `w` is the width with the sign.
unfoldable pub spaced : ℕ → ℤ → List ℕ
spaced width z = let xs = signed 0 z in spaces (width - length xs) ++ xs

-- `snprintf` writes at most `size` - 1 characters, and a 0 behind them.
abbrev pub snprintf : ℕ → List ℕ → List ℕ
snprintf size xs = take (size - 1) xs
