-- ===== src/Server/Tests.antt =====
-- A server with one connection, on descriptor 5 of the loop 7.
use kknet.Prelude.{
  ℕ, ◌≡◌, refl, true, false, none, some, [], ◌∷◌, ◌==◌, if◌then◌else◌, arith, Bool-cases, inl, inr,
  eqb→eq, sym, ap, ◌∙◌,
}
use kknet.Buffer.Ops
use kknet.Poll.Handler.{EventHandler}
use kknet.Poll.Select.{FdEvent, PollSelect, FdSets, find, wait}
use kknet.Connection.Defs.{State, Callbacks, Connection, eof}
use kknet.Connection.Life
use kknet.Connection.Life.{close_calls, reads, forces, closes}
use kknet.Pool.Defs.{choose_robin, get_next_event}
use kknet.Server.Defs.{
  Member, complete_connect, remove_connection_in_loop, lookup, assign, new_connection,
  remove_connection, remove_in_loop, run_in_loop,
}
use kknet.Server.System.{System, queued, execute, removed, Steps, stop, onward, Step}
use kknet.Server.System
use kknet.Server.Keeps.{Owned}
use kknet.Server.Owned.{RemovesOnly, removes_only}
use kknet.Server.Twice.{remove_times, run_tasks, closed_twice_faults}

abbrev set_all : Callbacks
set_all = record { connection = true; message = true; write_complete = true; close = true }

abbrev fifth : Member
fifth = record { loop = 7; name = 0; fd = 5; callbacks = set_all }

abbrev serving : System
serving = record {
  server = record {
    loop = 7;
    thread_pool = record { loops = 7 ∷ []; num = 1; robin_num = 0 };
    next_conn_id = 1;
    callbacks = set_all;
    connections = (5, 0) ∷ [];
  };
  objects = λ c. if c == 0 then some fifth else none;
  next = 1;
  tasks = [];
}

only : (c : ℕ) (m : Member) → serving.objects c ≡ some m → (c ≡ 0) × (fifth ≡ m)
only c m h = elim (Bool-cases (c == 0)) [
  | inl y ↦ (eqb→eq c 0 y, cc (rw y at h))
  | inr n ↦ absurd (cc (rw n at h))
]

entry : (fd c : ℕ) → lookup fd serving.server.connections ≡ some c → (fd ≡ 5) × (c ≡ 0)
unfolding lookup
entry fd c h = elim (Bool-cases (5 == fd)) [
  | inl y ↦ (sym (eqb→eq 5 fd y), cc (rw y at h))
  | inr n ↦ absurd (cc (rw n at h))
]

serving-Owned : Owned serving
serving-Owned = record {
  entries = λ fd c h. let (p, q) = entry fd c h in (fifth, ap serving.objects q, sym p);
  tasks = tt;
  single = λ c d m n h i z. (only c m h).0 ∙ sym (only d n i).0;
  fresh = λ c m h. omega (arith, (only c m h).0);
}

-- The connection is closed, and the loop of the server runs the task.
abbrev closing : System
closing = record serving { tasks = (7, remove_connection_in_loop 0) ∷ [] }

closes_and_runs : Steps (λ lt xs. xs) serving (execute serving (remove_connection_in_loop 0))
unfolding remove_connection queued
closes_and_runs =
    onward serving closing (execute serving (remove_connection_in_loop 0))
      (System.closes serving 0 fifth refl)
      (onward closing (execute serving (remove_connection_in_loop 0))
        (execute serving (remove_connection_in_loop 0))
        (System.runs closing [] [] 7 (remove_connection_in_loop 0) refl)
        (stop (execute serving (remove_connection_in_loop 0))))

removes_only_example :
    Owned (execute serving (remove_connection_in_loop 0))
    × ((fd : ℕ) → RemovesOnly (execute serving (remove_connection_in_loop 0)) 0 fd)
unfolding execute removed remove_in_loop
removes_only_example =
    removes_only (λ lt xs. xs) serving (execute serving (remove_connection_in_loop 0)) 0 fifth
      closes_and_runs serving-Owned refl

abbrev open_connection : Connection
open_connection = record {
  state = State.connected;
  reading = true;
  writing = false;
  input = Ops.new;
  output = Ops.new;
  callbacks = set_all;
}

abbrev polled : FdEvent
polled = record { fd = 5; read = true; write = false; error = false; close = false; handler = 0 }

abbrev poller : PollSelect
poller = record { events = (5, some polled) ∷ []; srevents = []; nfds = 6 }

abbrev handler : EventHandler ℕ
handler = record {
  read_callback = none;
  write_callback = none;
  error_callback = none;
  close_callback = none;
  read = false;
  write = false;
  error = false;
  close = false;
}

abbrev nothing_ready : ℕ → FdSets → ℕ × FdSets
nothing_ready n s = (0, s)

closed_twice_faults_example :
    wait nothing_ready
      (run_tasks serving.objects 7
        (remove_times
          (close_calls (Life.run open_connection (reads Ops.new eof ∷ forces ∷ closes ∷ [])).1)
          serving
          0).tasks
        poller)
      (λ _. handler)
    ≡ none
unfolding find
closed_twice_faults_example =
    closed_twice_faults nothing_ready serving 0 fifth open_connection Ops.new poller (λ _. handler)
      polled refl refl refl refl (omega arith) refl

-- A new connection goes to the loop of the pool and under its descriptor.
takes_connection :
    new_connection (λ lt xs. xs) (λ l. 3) serving.server 1 6
    ≡ some (
      record { loop = 7; name = 1; fd = 6; callbacks = set_all },
      record serving.server { next_conn_id = 2; connections = (5, 0) ∷ (6, 1) ∷ [] },
      run_in_loop 7 (complete_connect 1) ∷ [],
    )
unfolding new_connection get_next_event choose_robin assign
takes_connection = refl
