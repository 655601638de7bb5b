-- ===== src/Connection/Defs.antt =====
-- A Connection and its handlers. A handler returns the connection and its effects in order; `none`
-- is a fault of a buffer. A callback that is not set is `false` in `callbacks`.
use mathlib.Core.Option
use kknet.Prelude.{
  ℕ, zero, suc, ◌-◌, Bool, true, false, not, ◌&&◌, Option, none, some, List, [], ◌∷◌, ◌++◌, length,
  drop, replicate, ◌==◌, if◌then◌else◌, ◌>>=◌,
}
use kknet.Poll.Handler.{EventType}
use kknet.Buffer.Ops.{KBuffer, new, write, peek, retrieve}

pub data State : Type 0 where
  disconnected connecting connected disconnecting : State

pub record Callbacks : Type 0 where
  pub connection : Bool
  pub message : Bool
  pub write_complete : Bool
  pub close : Bool

-- What the source does not compute: calls of the event loop, of the socket and of the callbacks.
pub data Effect : Type 0 where
  add_fd delete_fd delete_all_event : Effect
  set_event delete_event : EventType → Effect
  connection_callback message_callback close_callback : Effect
  queue_write_complete : Effect
  run_shutdown_in_loop queue_handle_close : Effect
  socket_write : List ℕ → Effect
  shutdown_write : Effect

pub record Connection : Type 0 where
  pub state : State
  pub reading : Bool
  pub writing : Bool
  pub input : KBuffer
  pub output : KBuffer
  pub callbacks : Callbacks

-- The constructor leaves `writing_` as it finds it: `garbage`.
unfoldable pub init : Bool → Callbacks → Connection
init garbage cbs = record {
  state = State.connecting;
  reading = false;
  writing = garbage;
  input = new;
  output = new;
  callbacks = cbs;
}

abbrev pub Handled : Type 0
Handled = Connection × List Effect

abbrev pub emit : Bool → Effect → List Effect
emit true e = e ∷ []
emit false e = []

abbrev pub enable_reading : Connection → Handled
enable_reading c = (record c { reading = true }, set_event EventType.read ∷ [])

abbrev pub disable_reading : Connection → Handled
disable_reading c = (record c { reading = false }, delete_event EventType.read ∷ [])

abbrev pub enable_writing : Connection → Handled
enable_writing c = (record c { writing = true }, set_event EventType.write ∷ [])

abbrev pub disable_writing : Connection → Handled
disable_writing c = (record c { writing = false }, delete_event EventType.write ∷ [])

unfoldable pub complete_connect : Connection → Handled
complete_connect c =
    let (c', es) = enable_reading c in
    (
      record c' { state = State.connected },
      add_fd ∷ es ++ emit c.callbacks.connection connection_callback,
    )

abbrev pub is : State → State → Bool
is State.disconnected State.disconnected = true
is State.connecting State.connecting = true
is State.connected State.connected = true
is State.disconnecting State.disconnecting = true
is _ _ = false

unfoldable pub handle_close : Connection → Handled
handle_close c = (
  if is c.state State.disconnecting then record c { state = State.disconnected } else c,
  delete_all_event ∷ emit c.callbacks.close close_callback,
)

-- What `readFd` has returned, with the buffer that it left: a positive count, 0 for the end of the
-- stream, or an error that is EAGAIN or is not.
pub data Received : Type 0 where
  arrived eof would_block failed : Received

unfoldable pub handle_read : Connection → KBuffer → Received → Handled
handle_read c buffer arrived =
    (record c { input = buffer }, emit c.callbacks.message message_callback)
handle_read c buffer eof = handle_close (record c { input = buffer })
handle_read c buffer would_block = (record c { input = buffer }, [])
handle_read c buffer failed = handle_close (record c { input = buffer })

unfoldable pub connect_destroyed : Connection → Handled
connect_destroyed c = (c, delete_fd ∷ [])

unfoldable pub shutdown : Connection → Handled
shutdown c =
    if is c.state State.connected
    then (record c { state = State.disconnecting }, run_shutdown_in_loop ∷ [])
    else (c, [])

unfoldable pub shutdown_in_loop : Connection → Handled
shutdown_in_loop c = (c, emit (not c.writing) shutdown_write)

unfoldable pub force_close : Connection → Handled
force_close c =
    if is c.state State.connected
    then (record c { state = State.disconnecting }, queue_handle_close ∷ [])
    else (c, [])

-- The system call `write`: the number of bytes that it took, or an error, which breaks the
-- connection (EPIPE, ECONNRESET) or does not.
pub data Sent : Type 0 where
  took : ℕ → Sent
  broken : Sent
  refused : Sent

-- `std::string(buf)`: the bytes up to the first 0. There is none after the end of the array.
unfoldable pub c_string : List ℕ → Option (List ℕ)
c_string [] = none
c_string (zero ∷ bs) = some []
c_string (suc b ∷ bs) = Option.map (◌∷◌ (suc b)) (c_string bs)

module _ (block : ℕ) where
  unfoldable pub peek_all_as_string : KBuffer → Option (List ℕ)
  peek_all_as_string kb = peek block kb kb.readable_size >>= λ bytes.
      c_string (bytes ++ replicate (kb.buflen - kb.readable_size) 0)

  module _ (sys_write : List ℕ → Sent) where
    -- `handleWrite`, once the buffer is empty.
    abbrev pub drained : Connection → Handled
    drained c =
        let (c', es) = disable_writing c in
        (
          c',
          es
              ++ emit c'.callbacks.write_complete queue_write_complete
              ++ (if is c'.state State.disconnecting then (shutdown_in_loop c').1 else []),
        )

    abbrev pub after_write : Connection → List ℕ → Sent → Option Handled
    after_write c text (took zero) = some (c, socket_write text ∷ [])
    after_write c text (took (suc n)) = retrieve block c.output (suc n) >>= λ out.
        let c' : Connection = record c { output = out } in
        some (
          if out.readable_size == 0
          then ((drained c').0, socket_write text ∷ (drained c').1)
          else (c', socket_write text ∷ []))
    after_write c text broken = some (c, socket_write text ∷ [])
    after_write c text refused = some (c, socket_write text ∷ [])

    unfoldable pub handle_write : Connection → Option Handled
    unfolding shutdown_in_loop
    handle_write c =
        if c.writing
        then (peek_all_as_string c.output >>= λ text. after_write c text (sys_write text))
        else some (c, [])

    module _ (max : ℕ) where
      -- The bytes that the socket did not take go to the buffer. The result of its `write` is
      -- not looked at.
      abbrev pub keep : Connection → List ℕ → List Effect → Option Handled
      keep c [] es = some (c, es)
      keep c (b ∷ rest) es = write block max c.output (b ∷ rest) >>= λ w.
          let (c', more) = enable_writing (record c { output = w.1 }) in some (c', es ++ more)

      abbrev pub after_send : Connection → List ℕ → Sent → Option Handled
      after_send c bytes (took n) = keep c (drop n bytes) (
          socket_write bytes
          ∷ emit (length bytes - n == 0 && c.callbacks.write_complete) queue_write_complete)
      after_send c bytes broken = some (c, socket_write bytes ∷ [])
      after_send c bytes refused = keep c bytes (socket_write bytes ∷ [])

      unfoldable pub send_in_loop : Connection → List ℕ → Option Handled
      send_in_loop c bytes =
          if is c.state State.disconnected
          then some (c, [])
          else if not c.writing && (c.output.readable_size == 0)
          then after_send c bytes (sys_write bytes)
          else some (c, [])
