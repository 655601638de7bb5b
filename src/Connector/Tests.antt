-- ===== src/Connector/Tests.antt =====
-- A connector whose attempts are refused, and one that is stopped.
use kknet.Prelude.{◌≡◌, refl, true, ◌∷◌, arith}
use kknet.Connector.Defs.{
  writable, step, ClientConnector, econnrefused, einprogress, connect_by, connecting, retry, init,
  start, connect, start_in_loop, open_socket, close_socket, run_after, emit_retry,
}
use kknet.Connector.Backoff.{Paced, step-Paced, refused}
use kknet.Connector.Attempts.{Balanced, held, step-Balanced}

abbrev started : ClientConnector
started = (start (init true)).0

abbrev trying : ClientConnector
trying = (start_in_loop started 7 einprogress).0

seventh_delay :
    (start_in_loop (refused 6 7 started) 13 econnrefused).1
    ≡ open_socket 13 ∷ close_socket 13 ∷ run_after 30000 ∷ emit_retry true
unfolding refused start_in_loop start init connect connect_by retry
seventh_delay = refl

step-Paced_example : Paced (step trying (writable true))
unfolding start_in_loop start init connect connect_by connecting
step-Paced_example = step-Paced trying (writable true) (omega arith, omega arith)

step-Balanced_example : Balanced (held trying) (step trying (writable true))
step-Balanced_example = step-Balanced trying (writable true) tt
