-- ===== src/Client/Tests.antt =====
-- A client that has connected and is to try again.
use kknet.Prelude.{◌≡◌, refl, true, false, none, some, List, [], ◌∷◌}
use kknet.Connection.Life
use kknet.Client.Closing
use kknet.Buffer.Ops
use kknet.Connector.Defs.{ClientConnector, k_connected, einprogress}
use kknet.Connection.Defs.{Connection, eof, took, broken, complete_connect}
use kknet.Connection.Defs
use kknet.Connection.Life.{reads, Call, calls, sends, perform_all, perform, step}
use mathlib.Core.Option
use kknet.Client.Defs.{Client, Act, by_connection, given, init, enable_retry, new_connection}
use kknet.Client.Closing.{run_calls, kept, new_connection-silent}

abbrev connector : ClientConnector
connector = record {
  connect = true;
  state = k_connected;
  sockfd = 9;
  handler = false;
  has_retry_callback = false;
  retry_delay_ms = 500;
}

abbrev client : Client
client = record {
  connector = connector;
  callbacks = record { connection = true; message = true; write_complete = false };
  retry = true;
  connect = true;
  next_conn_id = 1;
  connection = none;
}

made_so : enable_retry (init connector false) ≡ client
unfolding enable_retry init
made_so = refl

-- What the connection that the client gets does and is after these calls: the peer closes it.
abbrev xs : List Call
xs = sends (1 ∷ 2 ∷ []) (took 2) ∷ calls (reads Ops.new eof) ∷ sends (3 ∷ []) broken ∷ []

new_connection-silent_example :
    run_calls 4 16 (new_connection client false).0 xs 10 einprogress
    ≡ Option.map
        (kept (record client { next_conn_id = 2 }))
        (perform_all 4 16 (complete_connect (Defs.init false (given client.callbacks))).0 xs)
new_connection-silent_example = new_connection-silent 4 16 client false xs 10 einprogress

-- The calls do not fault; the client lets the connection send when it has been closed.
ends :
    Option.map
      (λ (r : Client × List Act). r.1)
      (run_calls 4 16 (new_connection client false).0 xs 10 einprogress)
    ≡ some (
        by_connection (Defs.socket_write (1 ∷ 2 ∷ []))
        ∷ by_connection Defs.delete_all_event
        ∷ by_connection (Defs.socket_write (3 ∷ []))
        ∷ [])
unfolding run_calls new_connection perform Defs.send_in_loop complete_connect Defs.init
    Closing.remove_times Life.close_calls step Defs.handle_read Defs.handle_close
ends = refl
