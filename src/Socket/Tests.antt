-- ===== src/Socket/Tests.antt =====
-- Byte orders and addresses at concrete values.
use kknet.Prelude.{◌≡◌, refl}
use kknet.Socket.Order.{Endian, to_bytes, from_bytes, host_to_network, host_to_network16}

-- The port 8080.
swaps : host_to_network16 Endian.little 8080 ≡ 36895
unfolding host_to_network to_bytes from_bytes
swaps = refl
