-- ===== src/Client/Defs.antt =====
-- A Client and its operations. Each returns the client and its effects in order. What `connection_`
-- points to is part of the client.
use kknet.Prelude.{
  ℕ, suc, Bool, true, false, ◌&&◌, Option, none, some, List, [], ◌∷◌, map, if◌then◌else◌,
}
use kknet.Connector.Defs.{
  ClientConnector, Effect, Errno, State, k_connected, k_connecting, k_disconnected, start, restart,
  stop,
}
use kknet.Connection.Defs.{Callbacks, Connection, complete_connect, shutdown, force_close}
use kknet.Connection.Defs

-- What the connector and the connection do, and what the client queues in its loop.
pub data Act : Type 0 where
  by_connector : Effect → Act
  by_connection : Defs.Effect → Act
  queue_connect_destroyed : Act

-- The callbacks that a Client has: there is none for the end of its connection.
pub record ClientCallbacks : Type 0 where
  pub connection : Bool
  pub message : Bool
  pub write_complete : Bool

pub record Client : Type 0 where
  pub connector : ClientConnector
  pub callbacks : ClientCallbacks
  pub retry : Bool
  pub connect : Bool
  pub next_conn_id : ℕ
  pub connection : Option Connection

-- `write_complete` says whether a write complete callback is set.
unfoldable pub init : ClientConnector → Bool → Client
init connector write_complete = record {
  connector = connector;
  callbacks = record { connection = true; message = true; write_complete = write_complete };
  retry = false;
  connect = true;
  next_conn_id = 1;
  connection = none;
}

unfoldable pub enable_retry : Client → Client
enable_retry cl = record cl { retry = true }

abbrev pub is_connected : State → Bool
is_connected k_connected = true
is_connected k_connecting = false
is_connected k_disconnected = false

abbrev pub with_connector : Client → ClientConnector × List Effect → Client × List Act
with_connector cl r = (record cl { connector = r.0 }, map by_connector r.1)

abbrev pub with_connection : Client → Connection × List Defs.Effect → Client × List Act
with_connection cl r = (record cl { connection = some r.0 }, map by_connection r.1)

unfoldable pub connect : Client → Client × List Act
unfolding start
connect cl = with_connector (record cl { connect = true }) (start cl.connector)

abbrev pub disconnect_from : Client → Option Connection → Client × List Act
disconnect_from cl none = (cl, [])
disconnect_from cl (some c) = with_connection cl (shutdown c)

unfoldable pub disconnect : Client → Client × List Act
disconnect cl = disconnect_from (record cl { connect = false }) cl.connection

unfoldable pub stop_client : Client → Client × List Act
stop_client cl = with_connector (record cl { connect = false }) (stop cl.connector)

-- The callbacks that `newConnection` sets in its connection, whose close callback stays empty.
abbrev pub given : ClientCallbacks → Callbacks
given cbs = record {
  connection = cbs.connection;
  message = cbs.message;
  write_complete = cbs.write_complete;
  close = false;
}

-- `newConnection`: `garbage` is what the constructor leaves in `writing_`.
unfoldable pub new_connection : Client → Bool → Client × List Act
new_connection cl garbage =
    with_connection (record cl { next_conn_id = suc cl.next_conn_id })
      (complete_connect (Defs.init garbage (given cl.callbacks)))

-- `removeConnection`: `fd` and `e` are what a new attempt gets.
unfoldable pub remove_connection : Client → ℕ → Errno → Client × List Act
remove_connection cl fd e =
    let cl' = record cl { connection = none } in
    if cl.retry && cl.connect
    then (let r = with_connector cl' (restart cl.connector fd e) in
        (r.0, queue_connect_destroyed ∷ r.1))
    else (cl', queue_connect_destroyed ∷ [])

-- The destructor: `unique` is whether no one else has the connection.
abbrev pub destroy_with : Option Connection → Bool → List Defs.Effect
destroy_with none unique = []
destroy_with (some c) true = (force_close c).1
destroy_with (some c) false = []

unfoldable pub destroy : Client → Bool → List Act
unfolding force_close
destroy cl unique = map by_connection (destroy_with cl.connection unique)
