-- ===== src/Connector/Defs.antt =====
-- A ClientConnector and its operations. Each returns the connector and its effects in order.
use kknet.Prelude.{ℕ, ◌*◌, Bool, true, false, List, [], ◌∷◌, ◌++◌, min, if◌then◌else◌}

pub data State : Type 0 where
  k_disconnected k_connecting k_connected : State

abbrev pub max_retry_delay_ms : ℕ
max_retry_delay_ms = 30 * 1000

abbrev pub init_retry_delay_ms : ℕ
init_retry_delay_ms = 500

-- Calls of the event loop, of the sockets and of the callbacks. `run_after` has the delay in
-- milliseconds; it and `run_start_in_loop` lead to `startInLoop`.
pub data Effect : Type 0 where
  run_start_in_loop queue_stop_in_loop queue_reset_channel retry_callback : Effect
  run_after : ℕ → Effect
  open_socket close_socket add_fd set_write_event delete_fd new_connection : ℕ → Effect

-- `handler` says whether `handler_` holds a handler.
pub record ClientConnector : Type 0 where
  pub connect : Bool
  pub state : State
  pub sockfd : ℕ
  pub handler : Bool
  pub has_retry_callback : Bool
  pub retry_delay_ms : ℕ

abbrev pub Handled : Type 0
Handled = ClientConnector × List Effect

unfoldable pub init : Bool → ClientConnector
init cb = record {
  connect = false;
  state = k_disconnected;
  sockfd = 0;
  handler = false;
  has_retry_callback = cb;
  retry_delay_ms = init_retry_delay_ms;
}

abbrev pub is_connecting : State → Bool
is_connecting k_connecting = true
is_connecting _ = false

-- `errno` after `connect`, or 0.
pub data Errno : Type 0 where
  no_error einprogress eintr eisconn : Errno
  eagain eaddrinuse eaddrnotavail econnrefused enetunreach : Errno
  other : Errno

unfoldable pub connecting : ClientConnector → Handled
connecting c = (
  record c { state = k_connecting; handler = true },
  add_fd c.sockfd ∷ set_write_event c.sockfd ∷ [],
)

abbrev pub emit_retry : Bool → List Effect
emit_retry true = retry_callback ∷ []
emit_retry false = []

unfoldable pub retry : ClientConnector → Handled
retry c =
    if c.connect
    then (
      record c {
        state = k_disconnected;
        retry_delay_ms = min (c.retry_delay_ms * 2) max_retry_delay_ms;
      },
      close_socket c.sockfd ∷ run_after c.retry_delay_ms ∷ emit_retry c.has_retry_callback,
    )
    else (record c { state = k_disconnected }, close_socket c.sockfd ∷ [])

abbrev pub before : List Effect → Handled → Handled
before es (c, fs) = (c, es ++ fs)

-- `fd` is the new socket, and `e` what `connect` leaves in `errno`.
unfoldable pub connect_by : ClientConnector → Errno → Handled
connect_by c no_error = connecting c
connect_by c einprogress = connecting c
connect_by c eintr = connecting c
connect_by c eisconn = connecting c
connect_by c eagain = retry c
connect_by c eaddrinuse = retry c
connect_by c eaddrnotavail = retry c
connect_by c econnrefused = retry c
connect_by c enetunreach = retry c
connect_by c other = (c, close_socket c.sockfd ∷ [])

unfoldable pub connect : ClientConnector → ℕ → Errno → Handled
connect c fd e = before (open_socket fd ∷ []) (connect_by (record c { sockfd = fd }) e)

unfoldable pub start_in_loop : ClientConnector → ℕ → Errno → Handled
start_in_loop c fd e = if c.connect then connect c fd e else (c, [])

unfoldable pub start : ClientConnector → Handled
start c = (record c { connect = true }, run_start_in_loop ∷ [])

unfoldable pub restart : ClientConnector → ℕ → Errno → Handled
restart c fd e =
    start_in_loop
      (record c { state = k_disconnected; retry_delay_ms = init_retry_delay_ms; connect = true }) fd
      e

abbrev pub remove_and_reset_channel : ClientConnector → List Effect
remove_and_reset_channel c = delete_fd c.sockfd ∷ queue_reset_channel ∷ []

unfoldable pub reset_channel : ClientConnector → Handled
reset_channel c = (record c { handler = false }, [])

-- `err` says whether `getSocketError` returns an error.
unfoldable pub handle_write : ClientConnector → Bool → Handled
handle_write c err =
    if is_connecting c.state
    then before (remove_and_reset_channel c) (
        if err then retry c else (
          record c { state = k_connected },
          if c.connect then new_connection c.sockfd ∷ [] else close_socket c.sockfd ∷ [],
        ))
    else (c, [])

unfoldable pub handle_error : ClientConnector → Handled
handle_error c =
    if is_connecting c.state then before (remove_and_reset_channel c) (retry c) else (c, [])

unfoldable pub stop : ClientConnector → Handled
stop c = (record c { connect = false }, queue_stop_in_loop ∷ [])

unfoldable pub stop_in_loop : ClientConnector → Handled
stop_in_loop c =
    if is_connecting c.state
    then (
      record c { state = k_disconnected },
      remove_and_reset_channel c ++ (close_socket c.sockfd ∷ []),
    )
    else (c, [])

-- The calls of a connector, with what the system answers.
pub data Event : Type 0 where
  starts stops stops_in_loop resets errs : Event
  attempts restarts : ℕ → Errno → Event
  writable : Bool → Event

unfoldable pub step : ClientConnector → Event → Handled
step c starts = start c
step c stops = stop c
step c stops_in_loop = stop_in_loop c
step c resets = reset_channel c
step c errs = handle_error c
step c (attempts fd e) = start_in_loop c fd e
step c (restarts fd e) = restart c fd e
step c (writable err) = handle_write c err

-- The connector after a sequence of calls, and all effects in order.
unfoldable pub run : ClientConnector → List Event → Handled
run c [] = (c, [])
run c (e ∷ es) = let (c', fs) = step c e in let (c'', gs) = run c' es in (c'', fs ++ gs)
