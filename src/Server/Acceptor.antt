-- ===== src/Server/Acceptor.antt =====
-- An Acceptor and its handlers. A handler returns the acceptor and its calls of the socket and of
-- the event loop in order.
use kknet.Prelude.{ℕ, Bool, true, false, Option, none, some, List, [], ◌∷◌, ◌++◌}
use kknet.Poll.Handler.{EventType}
use kknet.Socket.Order.{Endian}
use kknet.Socket.Address.{SockaddrIn, bind_port}

pub data Effect : Type 0 where
  set_reuse_addr : ℕ → Effect
  bind : ℕ → SockaddrIn → Effect
  listen : ℕ → Effect
  add_fd delete_fd : ℕ → Effect
  set_event : ℕ → EventType → Effect
  new_connection : ℕ → SockaddrIn → Effect
  close_failed : Effect

pub record Acceptor : Type 0 where
  pub fd : ℕ
  pub listening : Bool
  -- Whether `newConnectionCallback_` is set.
  pub callback : Bool

abbrev pub emit : Bool → Effect → List Effect
emit true e = e ∷ []
emit false e = []

-- The constructor: `fd` is the new socket. A socket that could not be made is not looked at.
unfoldable pub init : Endian → ℕ → ℕ → Bool → Acceptor × List Effect
unfolding bind_port
init e fd port reuse_port = (
  record { fd = fd; listening = false; callback = false },
  emit reuse_port (set_reuse_addr fd) ++ (bind fd (bind_port e port false) ∷ []),
)

unfoldable pub listens : Acceptor → Acceptor × List Effect
listens a =
    (record a { listening = true }, listen a.fd ∷ add_fd a.fd ∷ set_event a.fd EventType.read ∷ [])

-- `handleRead`, with what `accept` returned. After an error it closes the descriptor -1.
unfoldable pub handle_read : Acceptor → Option (ℕ × SockaddrIn) → List Effect
handle_read a none = close_failed ∷ []
handle_read a (some (fd, peer)) = emit a.callback (new_connection fd peer)

-- The destructor.
unfoldable pub destroy : Acceptor → List Effect
destroy a = delete_fd a.fd ∷ []
