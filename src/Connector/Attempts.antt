-- ===== src/Connector/Attempts.antt =====
-- The sockets that a connector opens, and the handler it registers.
use kknet.Prelude.{ℕ, suc, ◌+◌, ◌≡◌, refl, Bool, true, false, List, [], ◌∷◌, if◌then◌else◌, arith}
use kknet.Connector.Defs.{
  Event, starts, stops, stops_in_loop, resets, errs, attempts, restarts, writable, step, run,
  k_connecting, Effect, queue_stop_in_loop, queue_reset_channel, run_start_in_loop, open_socket,
  close_socket, add_fd, set_write_event, delete_fd, new_connection, ClientConnector, Handled, Errno,
  no_error, einprogress, eintr, eisconn, eagain, eaddrinuse, eaddrnotavail, econnrefused,
  enetunreach, other, connecting, retry, before, connect_by, connect, start_in_loop, start, restart,
  reset_channel, handle_write, handle_error, stop, stop_in_loop, is_connecting,
}

-- The sockets opened in a list of effects, and those closed or handed over as connections.
unfoldable pub opened : List Effect → ℕ
opened [] = 0
opened (open_socket fd ∷ es) = suc (opened es)
opened (_ ∷ es) = opened es

unfoldable pub given_up : List Effect → ℕ
given_up [] = 0
given_up (close_socket fd ∷ es) = suc (given_up es)
given_up (new_connection fd ∷ es) = suc (given_up es)
given_up (_ ∷ es) = given_up es

-- The sockets that the connector holds.
abbrev pub held : ClientConnector → ℕ
held c = if is_connecting c.state then 1 else 0

-- An attempt begins only when none is under way.
abbrev pub IsIdle : ClientConnector → Event → Type 0
IsIdle c (attempts fd e) = is_connecting c.state ≡ false
IsIdle c (restarts fd e) = is_connecting c.state ≡ false
IsIdle c e = Unit {0}

abbrev pub Balanced : ℕ → Handled → Type 0
Balanced n (c, es) = opened es + n ≡ given_up es + held c

retry-Balanced : (c : ClientConnector) → Balanced 1 (retry c)
unfolding opened given_up retry
retry-Balanced c = ground arith

connect_by-Balanced :
    (c : ClientConnector) (e : Errno) → is_connecting c.state ≡ false → Balanced 1 (connect_by c e)
unfolding opened given_up connect_by connecting
connect_by-Balanced c no_error h = refl
connect_by-Balanced c einprogress h = refl
connect_by-Balanced c eintr h = refl
connect_by-Balanced c eisconn h = refl
connect_by-Balanced c eagain h = retry-Balanced c
connect_by-Balanced c eaddrinuse h = retry-Balanced c
connect_by-Balanced c eaddrnotavail h = retry-Balanced c
connect_by-Balanced c econnrefused h = retry-Balanced c
connect_by-Balanced c enetunreach h = retry-Balanced c
connect_by-Balanced c other h = rw h refl

if-Balanced :
    (b : Bool) (n : ℕ) (x y : Handled)
    → Balanced n x
    → Balanced n y
    → Balanced n (if b then x else y)
if-Balanced true n x y h k = h
if-Balanced false n x y h k = k

opening-Balanced :
    (fd : ℕ) (x : Handled) → Balanced 1 x → Balanced 0 (before (open_socket fd ∷ []) x)
unfolding opened given_up
opening-Balanced fd (c, es) h = omega arith

start_in_loop-Balanced :
    (c : ClientConnector) (fd : ℕ) (e : Errno)
    → is_connecting c.state ≡ false
    → Balanced 0 (start_in_loop c fd e)
unfolding opened given_up start_in_loop connect
start_in_loop-Balanced c fd e h =
    if-Balanced c.connect 0 (connect c fd e) (c, [])
      (opening-Balanced fd (connect_by (record c { sockfd = fd }) e)
        (connect_by-Balanced (record c { sockfd = fd }) e h))
      (rw h refl)

-- While no attempt begins before the last one has ended, each call opens as many sockets as it
-- closes or hands over, up to the one that the connector holds while it is connecting.
pub step-Balanced : (c : ClientConnector) (e : Event) → IsIdle c e → Balanced (held c) (step c e)
unfolding step opened given_up start stop stop_in_loop reset_channel handle_error restart
    handle_write retry
step-Balanced c starts h = refl
step-Balanced c stops h = refl
step-Balanced c stops_in_loop h = ground arith
step-Balanced c resets h = refl
step-Balanced c errs h = ground arith
step-Balanced c (attempts fd e) h = rw h (start_in_loop-Balanced c fd e h)
step-Balanced c (restarts fd e) h = rw h (start_in_loop-Balanced _ fd e refl)
step-Balanced c (writable err) h = ground arith

-- When a connecting client is stopped and started again before the queued `resetChannel` runs,
-- the second attempt's handler is in the poller when `resetChannel` deletes it: it is not taken
-- out, and the connector is connecting.
pub resets_new_handler :
    (c : ClientConnector) (fd : ℕ)
    → c.state ≡ k_connecting
    → let x = run c (stops ∷ stops_in_loop ∷ starts ∷ attempts fd einprogress ∷ resets ∷ []) in
      (x.1
        ≡ queue_stop_in_loop
          ∷ delete_fd c.sockfd
          ∷ queue_reset_channel
          ∷ close_socket c.sockfd
          ∷ run_start_in_loop
          ∷ open_socket fd
          ∷ add_fd fd
          ∷ set_write_event fd
          ∷ [])
      × (x.0.handler ≡ false)
      × (x.0.state ≡ k_connecting)
unfolding run step start stop stop_in_loop start_in_loop connect connect_by connecting reset_channel
resets_new_handler c fd h = rw h (refl, refl, refl)
