-- ===== src/Prelude/Integers.antt =====
-- The signed integers, over the native numbers. `negsuc n` is -(n + 1).
use Prim.Native.Nat.{ℕ, zero, suc, ◌+◌, ◌-◌, ◌*◌, ◌/◌, ◌%◌}
use mathlib.Core.Path.{◌≡◌, refl, ap}
use native.Mathlib.Omega.{arith}
use mathlib.Core.Bool.{Bool, true, false}
use kknet.Prelude.Tests.{ltb, ◌==◌, if◌then◌else◌}

pub data ℤ : Type 0 where
  pos negsuc : ℕ → ℤ

-- -n.
abbrev pub neg : ℕ → ℤ
neg zero = pos zero
neg (suc n) = negsuc n

infixl 65 ◌+ℤ◌
abbrev pub ◌+ℤ◌ : ℤ → ℤ → ℤ
pos a +ℤ pos b = pos (a + b)
pos a +ℤ negsuc b = if ltb b a then pos (a - suc b) else negsuc (b - a)
negsuc a +ℤ pos b = if ltb a b then pos (b - suc a) else negsuc (a - b)
negsuc a +ℤ negsuc b = negsuc (suc (a + b))

abbrev pub less_than : ℤ → ℤ → Bool
less_than (pos a) (pos b) = ltb a b
less_than (pos a) (negsuc b) = false
less_than (negsuc a) (pos b) = true
less_than (negsuc a) (negsuc b) = ltb b a

abbrev pub equals : ℤ → ℤ → Bool
equals (pos a) (pos b) = a == b
equals (pos a) (negsuc b) = false
equals (negsuc a) (pos b) = false
equals (negsuc a) (negsuc b) = a == b

-- The product with a number, and the quotient and the remainder, which round towards 0.
abbrev pub times : ℤ → ℕ → ℤ
times (pos n) k = pos (n * k)
times (negsuc n) k = neg (suc n * k)

abbrev pub quotient : ℤ → ℕ → ℤ
quotient (pos n) k = pos (n / k)
quotient (negsuc n) k = neg (suc n / k)

abbrev pub remainder : ℤ → ℕ → ℤ
remainder (pos n) k = pos (n % k)
remainder (negsuc n) k = neg (suc n % k)

pub times-neg : (n k : ℕ) → times (neg n) k ≡ neg (n * k)
times-neg zero k = let z : zero * k ≡ 0 = omega arith in rw z refl
times-neg (suc n) k = refl

pub neg-add : (a b c : ℕ) → a + b ≡ c → neg a +ℤ neg b ≡ neg c
neg-add zero zero zero h = refl
neg-add zero zero (suc c) h = absurd (omega arith)
neg-add zero (suc b) zero h = absurd (omega arith)
neg-add zero (suc b) (suc c) h = ground arith
neg-add (suc a) b zero h = absurd (omega arith)
neg-add (suc a) zero (suc c) h = ground arith
neg-add (suc a) (suc b) (suc c) h = ap negsuc (omega arith)
