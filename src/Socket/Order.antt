-- ===== src/Socket/Order.antt =====
-- The conversions of Socket.h between the byte order of the host and that of the network.
use kknet.Prelude.{
  ℕ, zero, suc, ◌+◌, ◌*◌, ◌/◌, ◌%◌, ◌^◌, ◌<◌, ◌≡◌, refl, ap, List, [], ◌∷◌, ◌++◌, append-nil, arith,
  length,
}

-- The order in which the host keeps the bytes of an integer.
pub data Endian : Type 0 where
  little big : Endian

-- The `n` low bytes, the lowest first.
unfoldable pub to_bytes : ℕ → ℕ → List ℕ
to_bytes zero x = []
to_bytes (suc n) x = x % 256 ∷ to_bytes n (x / 256)

unfoldable pub from_bytes : List ℕ → ℕ
from_bytes [] = 0
from_bytes (b ∷ bs) = b + 256 * from_bytes bs

abbrev pub reverse_onto : List ℕ → List ℕ → List ℕ
reverse_onto [] ys = ys
reverse_onto (x ∷ xs) ys = reverse_onto xs (x ∷ ys)

-- htobe and betoh of an integer of `n` bytes: the bytes are swapped on a host that keeps the lowest
-- byte first.
unfoldable pub host_to_network : Endian → ℕ → ℕ → ℕ
unfolding to_bytes from_bytes
host_to_network Endian.little n x = from_bytes (reverse_onto (to_bytes n x) [])
host_to_network Endian.big n x = x

unfoldable pub network_to_host : Endian → ℕ → ℕ → ℕ
unfolding to_bytes from_bytes
network_to_host Endian.little n x = from_bytes (reverse_onto (to_bytes n x) [])
network_to_host Endian.big n x = x

abbrev pub host_to_network16 : Endian → ℕ → ℕ
host_to_network16 e x = host_to_network e 2 x

abbrev pub host_to_network32 : Endian → ℕ → ℕ
host_to_network32 e x = host_to_network e 4 x

abbrev pub host_to_network64 : Endian → ℕ → ℕ
host_to_network64 e x = host_to_network e 8 x

abbrev pub network_to_host16 : Endian → ℕ → ℕ
network_to_host16 e x = network_to_host e 2 x

abbrev pub network_to_host32 : Endian → ℕ → ℕ
network_to_host32 e x = network_to_host e 4 x

abbrev pub network_to_host64 : Endian → ℕ → ℕ
network_to_host64 e x = network_to_host e 8 x

-- Bytes in their bounds.
abbrev IsBytes : List ℕ → Type 0
IsBytes [] = Unit {0}
IsBytes (b ∷ bs) = (b < 256) × IsBytes bs

to_bytes-IsBytes : (n x : ℕ) → IsBytes (to_bytes n x)
unfolding to_bytes
to_bytes-IsBytes zero x = tt
to_bytes-IsBytes (suc n) x = (omega arith, to_bytes-IsBytes n (x / 256))

reverse_onto-IsBytes : (xs ys : List ℕ) → IsBytes xs → IsBytes ys → IsBytes (reverse_onto xs ys)
reverse_onto-IsBytes [] ys p q = q
reverse_onto-IsBytes (x ∷ xs) ys p q = reverse_onto-IsBytes xs (x ∷ ys) p.1 (p.0, q)

length-to_bytes : (n x : ℕ) → length (to_bytes n x) ≡ n
unfolding to_bytes
length-to_bytes zero x = refl
length-to_bytes (suc n) x = ap suc (length-to_bytes n (x / 256))

length-reverse_onto : (xs ys : List ℕ) → length (reverse_onto xs ys) ≡ length xs + length ys
length-reverse_onto [] ys = omega arith
length-reverse_onto (x ∷ xs) ys = omega (arith, length-reverse_onto xs (x ∷ ys))

reverse_onto-twice :
    (xs ys zs : List ℕ) → reverse_onto (reverse_onto xs ys) zs ≡ reverse_onto ys (xs ++ zs)
reverse_onto-twice [] ys zs = refl
reverse_onto-twice (x ∷ xs) ys zs = reverse_onto-twice xs (x ∷ ys) zs

to_bytes-from_bytes : (bs : List ℕ) → IsBytes bs → to_bytes (length bs) (from_bytes bs) ≡ bs
unfolding to_bytes from_bytes
to_bytes-from_bytes [] p = refl
to_bytes-from_bytes (b ∷ bs) p =
    let low : (b + 256 * from_bytes bs) % 256 ≡ b = omega (arith, p.0) in
    let high : (b + 256 * from_bytes bs) / 256 ≡ from_bytes bs = omega (arith, p.0) in
    rw (low, high, to_bytes-from_bytes bs p.1)

from_bytes-to_bytes : (n x : ℕ) → x < 256 ^ n → from_bytes (to_bytes n x) ≡ x
unfolding to_bytes from_bytes
from_bytes-to_bytes zero x h = omega arith
from_bytes-to_bytes (suc n) x h =
    let e : 256 ^ suc n ≡ 256 * 256 ^ n = omega arith in
    let r = from_bytes-to_bytes n (x / 256) (omega arith) in omega (arith, r)

-- For an integer of any number of bytes, on a host of either byte order, the conversion to the order
-- of the network and back gives the integer.
pub network_to_host-host_to_network :
    (e : Endian) (n x : ℕ) → x < 256 ^ n → network_to_host e n (host_to_network e n x) ≡ x
unfolding network_to_host host_to_network
network_to_host-host_to_network Endian.big n x h = refl
network_to_host-host_to_network Endian.little n x h =
    let bs = reverse_onto (to_bytes n x) [] in
    let size : length bs ≡ n =
      omega (arith, length-reverse_onto (to_bytes n x) [], length-to_bytes n x) in
    let back =
      to_bytes-from_bytes bs (reverse_onto-IsBytes (to_bytes n x) [] (to_bytes-IsBytes n x) tt) in
    let back' : to_bytes n (from_bytes bs) ≡ bs = rw size at back in
    rw (
      back',
      reverse_onto-twice (to_bytes n x) [] [],
      append-nil (to_bytes n x),
      from_bytes-to_bytes n x h,
    )
