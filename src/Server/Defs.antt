-- ===== src/Server/Defs.antt =====
-- A Server and its operations. A connection is the number of its object, and a loop stands for its
-- address. `connections_` is a list with one pair for each descriptor.
use kknet.Prelude.{
  ℕ, suc, Bool, true, false, Option, none, some, List, [], ◌∷◌, ◌==◌, if◌then◌else◌, ◌>>=◌,
}
use kknet.Pool.Defs.{EventloopPool, set_thread_num, get_next_event}
use kknet.Pool.Defs
use kknet.Connection.Defs.{Callbacks}

-- What a ConnectionPtr points to, of what a Server looks at.
pub record Member : Type 0 where
  pub loop : ℕ
  pub name : ℕ
  pub fd : ℕ
  pub callbacks : Callbacks

-- What is given to a loop to run.
pub data Task : Type 0 where
  complete_connect remove_connection_in_loop connect_destroyed : ℕ → Task

pub data Effect : Type 0 where
  run_in_loop queue_in_loop : ℕ → Task → Effect
  close_callback : ℕ → Effect

pub record Server : Type 0 where
  pub loop : ℕ
  pub thread_pool : EventloopPool
  pub next_conn_id : ℕ
  pub callbacks : Callbacks
  pub connections : List (ℕ × ℕ)

unfoldable pub init : ℕ → Callbacks → Server
init loop callbacks = record {
  loop = loop;
  thread_pool = Defs.new loop;
  next_conn_id = 0;
  callbacks = callbacks;
  connections = [];
}

unfoldable pub set_server_threads : Server → ℕ → Server
unfolding set_thread_num
set_server_threads s num = record s { thread_pool = set_thread_num s.thread_pool num }

-- std::map: `find`, `m[fd] = conn` and `erase`.
unfoldable pub lookup : ℕ → List (ℕ × ℕ) → Option ℕ
lookup fd [] = none
lookup fd ((k, c) ∷ m) = if k == fd then some c else lookup fd m

unfoldable pub assign : ℕ → ℕ → List (ℕ × ℕ) → List (ℕ × ℕ)
assign fd conn [] = (fd, conn) ∷ []
assign fd conn ((k, c) ∷ m) = if k == fd then (fd, conn) ∷ m else (k, c) ∷ assign fd conn m

unfoldable pub erase : ℕ → List (ℕ × ℕ) → List (ℕ × ℕ)
erase fd [] = []
erase fd ((k, c) ∷ m) = if k == fd then erase fd m else (k, c) ∷ erase fd m

module _ (sort : (ℕ → ℕ → Bool) → List ℕ → List ℕ) where
  -- `start`, without the Acceptor: the loop that it is to run in.
  unfoldable pub start : (ℕ → ℕ) → (ℕ → ℕ) → Server → Option Server
  start made fd_nums s = get_next_event sort (Defs.start made s.thread_pool) fd_nums >>= λ r.
      some (record s { thread_pool = r.1; loop = r.0 })

  -- `newConnection` makes the object `conn`. The close callback of the connection is
  -- `removeConnection`.
  unfoldable pub new_connection : (ℕ → ℕ) → Server → ℕ → ℕ → Option (Member × Server × List Effect)
  new_connection fd_nums s conn fd = get_next_event sort s.thread_pool fd_nums >>= λ r. some (
    record {
      loop = r.0;
      name = s.next_conn_id;
      fd = fd;
      callbacks = record s.callbacks { close = true };
    },
    record s {
      thread_pool = r.1;
      next_conn_id = suc s.next_conn_id;
      connections = assign fd conn s.connections;
    },
    run_in_loop r.0 (complete_connect conn) ∷ [],
  )

unfoldable pub remove_connection : Server → ℕ → List Effect
remove_connection s conn = run_in_loop s.loop (remove_connection_in_loop conn) ∷ []

abbrev pub emit : Bool → Effect → List Effect
emit true e = e ∷ []
emit false e = []

unfoldable pub remove_in_loop : Server → ℕ → Member → Server × List Effect
remove_in_loop s conn m = (
  record s { connections = erase m.fd s.connections },
  queue_in_loop m.loop (connect_destroyed conn) ∷ emit s.callbacks.close (close_callback conn),
)
