-- ===== src/Socket/Address.antt =====
-- The addresses that Socket.cpp gives to bind and connect. The system's inet_pton and inet_ntop are
-- parameters.
use kknet.Prelude.{
  ℕ, refl, ◌%◌, ◌^◌, ◌<◌, ◌≡◌, Bool, true, false, Option, none, some, List, if◌then◌else◌, arith,
}
use kknet.Socket.Order.{
  Endian, host_to_network16, host_to_network32, network_to_host16, network_to_host32,
  network_to_host-host_to_network,
}

-- A sockaddr_in, with the port and the address in the order of the network.
pub record SockaddrIn : Type 0 where
  pub sin_family : ℕ
  pub sin_port : ℕ
  pub sin_addr : ℕ

abbrev pub af_inet : ℕ
af_inet = 2

abbrev pub inaddr_any : ℕ
inaddr_any = 0

-- 127.0.0.1
abbrev pub inaddr_loopback : ℕ
inaddr_loopback = 2_130_706_433

module _ (e : Endian) where
  -- `bind(fd, port, loopbackOnly)`: the address for the system call.
  unfoldable pub bind_port : ℕ → Bool → SockaddrIn
  bind_port port loopback_only = record {
    sin_family = af_inet;
    sin_port = host_to_network16 e (port % 2 ^ 16);
    sin_addr = host_to_network32 e (if loopback_only then inaddr_any else inaddr_loopback);
  }

  -- `createServerSocket`: the call of bind, if there is a socket. The descriptor is returned.
  unfoldable pub create_server_socket : Option ℕ → ℕ → Bool → Option (ℕ × SockaddrIn)
  unfolding bind_port
  create_server_socket none port loopback_only = none
  create_server_socket (some fd) port loopback_only = some (fd, bind_port port loopback_only)

  module _ (inet_pton : List ℕ → Option ℕ) where
    -- When the string is no address, what stood there stays.
    unfoldable pub turn_string_to_ip : List ℕ → SockaddrIn → SockaddrIn
    turn_string_to_ip ip addr = elim (inet_pton ip) [
      | none ↦ addr
      | some a ↦ record addr { sin_addr = a }
    ]

    -- `bind(fd, ip, port)` and `connect(fd, ip, port)`: `garbage` is what the variable holds.
    unfoldable pub address_of : SockaddrIn → List ℕ → ℕ → SockaddrIn
    address_of garbage ip port =
        turn_string_to_ip ip
          (record garbage { sin_family = af_inet; sin_port = host_to_network16 e (port % 2 ^ 16) })

-- `getSocketError`: what getsockopt answers, an error number or the option.
pub data Answer : Type 0 where
  failed got : ℕ → Answer

unfoldable pub get_socket_error : Answer → ℕ
get_socket_error (failed errno) = errno
get_socket_error (got optval) = optval

-- The address that `bind` uses for a port is of the family of IPv4 and has, read in the order of the
-- host, that port and any address of the machine when `loopbackOnly` is set, and the loopback address
-- when it is not.
pub bind_port-reaches :
    (e : Endian) (port : ℕ) (loopback_only : Bool)
    → port < 2 ^ 16
    → ((bind_port e port loopback_only).sin_family ≡ af_inet)
      × (network_to_host16 e (bind_port e port loopback_only).sin_port ≡ port)
      × (network_to_host32 e (bind_port e port true).sin_addr ≡ inaddr_any)
      × (network_to_host32 e (bind_port e port false).sin_addr ≡ inaddr_loopback)
unfolding bind_port
bind_port-reaches e port loopback_only h =
    let small : port % 2 ^ 16 ≡ port = omega arith in
    (
      refl,
      rw small (network_to_host-host_to_network e 2 port (omega arith)),
      network_to_host-host_to_network e 4 inaddr_any (omega arith),
      network_to_host-host_to_network e 4 inaddr_loopback (omega arith),
    )
