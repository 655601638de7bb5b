-- ===== src/Timestamp/Digits.antt =====
-- Reading back a number that has been printed.
use kknet.Prelude.{
  ℕ, zero, suc, ◌+◌, ◌-◌, ◌*◌, ◌/◌, ◌%◌, ◌^◌, ◌≤◌, ◌<◌, ◌≡◌, refl, ap, Bool, true, false, ◌&&◌, ℤ,
  pos, negsuc, neg, List, [], ◌∷◌, ◌++◌, length, All, All-append, leb, ltb, ◌==◌, if◌then◌else◌,
  arith, length-append, Bool-cases, inl, inr,
}
use native.Mathlib.Omega.{pow_step}
use kknet.Timestamp.Print.{minus, nought, digits, zeros, padded, fuel, signed}

abbrev pub is_digit : ℕ → Bool
is_digit c = leb nought c && leb c 57

-- The number at the front, behind the digits `acc`, and what follows it.
unfoldable pub read_digits : ℕ → List ℕ → ℕ × List ℕ
read_digits acc [] = (acc, [])
read_digits acc (c ∷ cs) =
    let rest = read_digits (10 * acc + (c - nought)) cs in
    if is_digit c then rest else (acc, c ∷ cs)

-- A number with its sign.
unfoldable pub read_signed : List ℕ → ℤ × List ℕ
read_signed [] = (pos 0, [])
read_signed (c ∷ cs) =
    if c == minus
    then (neg (read_digits 0 cs).0, (read_digits 0 cs).1)
    else (pos (read_digits 0 (c ∷ cs)).0, (read_digits 0 (c ∷ cs)).1)

abbrev IsDigit : ℕ → Type 0
IsDigit c = is_digit c ≡ true

unfoldable value : ℕ → List ℕ → ℕ
value acc [] = acc
value acc (c ∷ cs) = value (10 * acc + (c - nought)) cs

read_digits-append :
    (acc : ℕ) (xs ys : List ℕ)
    → All IsDigit xs
    → read_digits acc (xs ++ ys) ≡ read_digits (value acc xs) ys
unfolding read_digits value
read_digits-append acc [] ys d = refl
read_digits-append acc (c ∷ cs) ys d =
    rw (d.0, read_digits-append (10 * acc + (c - nought)) cs ys d.1) refl

value-append : (acc : ℕ) (xs ys : List ℕ) → value acc (xs ++ ys) ≡ value (value acc xs) ys
unfolding value
value-append acc [] ys = refl
value-append acc (c ∷ cs) ys = value-append (10 * acc + (c - nought)) cs ys

value-zeros : (n : ℕ) (xs : List ℕ) → value 0 (zeros n ++ xs) ≡ value 0 xs
unfolding value
value-zeros zero xs = refl
value-zeros (suc n) xs = value-zeros n xs

tenth : (f n : ℕ) → n < 10 ^ suc f → n / 10 < 10 ^ f
tenth f n h = let p = pow_step 10 f in omega arith

value-digits : (f n : ℕ) → n < 10 ^ f → value 0 (digits f n) ≡ n
unfolding value digits
value-digits zero n h = omega arith
value-digits (suc f) n h = elim (Bool-cases (ltb n 10)) [
  | inl e ↦ rw e (omega arith)
  | inr e ↦
      rw
        (
          e,
          value-append 0 (digits f (n / 10)) ((nought + n % 10) ∷ []),
          value-digits f (n / 10) (tenth f n h),
        )
        (omega arith)
]

digits-IsDigit : (f n : ℕ) → All IsDigit (digits f n)
unfolding digits
digits-IsDigit zero n = tt
digits-IsDigit (suc f) n = elim (Bool-cases (ltb n 10)) [
  | inl e ↦ rw e (ground arith, tt)
  | inr e ↦
      rw e (All-append IsDigit (digits f (n / 10)) _ (digits-IsDigit f (n / 10)) (ground arith, tt))
]

zeros-IsDigit : (n : ℕ) → All IsDigit (zeros n)
zeros-IsDigit zero = tt
zeros-IsDigit (suc n) = (refl, zeros-IsDigit n)

-- A number of `k` digits at most is printed with as many.
pub length-digits : (f k n : ℕ) → n < 10 ^ suc k → length (digits f n) ≤ suc k
unfolding digits
length-digits zero k n h = omega arith
length-digits (suc f) zero n h = let e : ltb n 10 ≡ true = ground arith in rw e (omega arith)
length-digits (suc f) (suc k) n h = elim (Bool-cases (ltb n 10)) [
  | inl e ↦ rw e (omega arith)
  | inr e ↦
      let l = length-digits f k (n / 10) (tenth (suc k) n h) in
      rw (e, length-append (digits f (n / 10)) ((nought + n % 10) ∷ [])) (omega arith)
]

digits-length : (f n : ℕ) → 0 < length (digits (suc f) n)
unfolding digits
digits-length f n = elim (Bool-cases (ltb n 10)) [
  | inl e ↦ rw e (omega arith)
  | inr e ↦ rw (e, length-append (digits f (n / 10)) ((nought + n % 10) ∷ [])) (omega arith)
]

-- Where a number ends.
abbrev pub Stops : List ℕ → Type 0
Stops rest = (acc : ℕ) → read_digits acc rest ≡ (acc, rest)

module _ (w n : ℕ) (h : n < 10 ^ fuel) where
  padded-IsDigit : All IsDigit (padded w (digits fuel n))
  padded-IsDigit =
      All-append IsDigit (zeros (w - length (digits fuel n))) (digits fuel n)
        (zeros-IsDigit (w - length (digits fuel n))) (digits-IsDigit fuel n)

  read_digits-padded :
      (rest : List ℕ) → Stops rest → read_digits 0 (padded w (digits fuel n) ++ rest) ≡ (n, rest)
  read_digits-padded rest s =
      rw
        (
          read_digits-append 0 (padded w (digits fuel n)) rest padded-IsDigit,
          value-zeros (w - length (digits fuel n)) (digits fuel n),
          value-digits fuel n h,
        )
        (s n)

  padded-length : 0 < length (padded w (digits fuel n))
  padded-length =
      let l = digits-length 19 n in
      rw (length-append (zeros (w - length (digits fuel n))) (digits fuel n)) (omega arith)

read_signed-digits :
    (xs rest : List ℕ)
    → All IsDigit xs
    → 0 < length xs
    → read_signed (xs ++ rest)
      ≡ (pos (read_digits 0 (xs ++ rest)).0, (read_digits 0 (xs ++ rest)).1)
unfolding read_signed
read_signed-digits [] rest d l = absurd (omega arith)
read_signed-digits (c ∷ cs) rest d l =
    let n : (c == minus) ≡ false = let d0 = d.0 in ground arith in rw n refl

abbrev pub magnitude : ℤ → ℕ
magnitude (pos n) = n
magnitude (negsuc n) = suc n

-- A number that has been printed is read, whatever its width.
pub read_signed-signed :
    (w : ℕ) (z : ℤ) (rest : List ℕ)
    → magnitude z < 10 ^ fuel
    → Stops rest
    → read_signed (signed w z ++ rest) ≡ (z, rest)
unfolding signed read_signed
read_signed-signed w (pos n) rest h s =
    rw
      (
        read_signed-digits (padded w (digits fuel n)) rest (padded-IsDigit w n h)
            (padded-length w n h),
        read_digits-padded w n h rest s,
      )
      refl
read_signed-signed w (negsuc n) rest h s = rw (read_digits-padded (w - 1) (suc n) h rest s) refl

length-zeros : (n : ℕ) → length (zeros n) ≡ n
length-zeros zero = refl
length-zeros (suc n) = ap suc (length-zeros n)

length-padded : (w b : ℕ) (xs : List ℕ) → w ≤ b → length xs ≤ b → length (padded w xs) ≤ b
length-padded w b xs h k =
    rw (length-append (zeros (w - length xs)) xs, length-zeros (w - length xs)) (omega arith)

-- It has a character for the sign, at most, and for each digit.
pub length-signed :
    (w k : ℕ) (z : ℤ) → magnitude z < 10 ^ suc k → w ≤ suc k → length (signed w z) ≤ suc (suc k)
unfolding signed
length-signed w k (pos n) h l =
    let b = length-padded w (suc k) (digits fuel n) l (length-digits fuel k n h) in omega arith
length-signed w k (negsuc n) h l =
    let b =
      length-padded (w - 1) (suc k) (digits fuel (suc n)) (omega arith)
        (length-digits fuel k (suc n) h) in
    omega arith
