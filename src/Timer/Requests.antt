-- ===== src/Timer/Requests.antt =====
-- src/reactor/TimeEvent.cpp and Eventloop.cpp: timers that are asked for by the loop's thread or by
-- another one. A task of the loop that is not about timers is left out.
use kknet.Prelude.{ℕ, suc, ◌+◌, Bool, true, false, Option, none, some, List, [], ◌∷◌, ◌++◌, ◌>>=◌}
use kknet.Timer.Queue.{Interval, Timer, Entry, TimerQueue, put, add_timer_in_loop, cancel_in_loop}

-- A Timer* is an address, and a TimerId an address and a sequence.
pub data Request : Type 0 where
  adds : ℕ → Request
  cancels : ℕ × ℕ → Request

-- `tasks` are those of `tasks_` that are about timers, and `num` is `Timer::num_`.
pub record Requests : Type 0 where
  pub queue : TimerQueue
  pub tasks : List Request
  pub num : ℕ

unfoldable pub new : (ℕ → Option Timer) → TimerQueue
new store = record {
  store = store;
  timers = [];
  active = [];
  calling = false;
  canceling = [];
  armed = none;
}

-- The loop of the destructor.
unfoldable pub delete_each : List Entry → (ℕ → Option Timer) → ℕ → Option Timer
delete_each [] store = store
delete_each ((t, a) ∷ xs) store = delete_each xs (put a none store)

unfoldable pub perform : TimerQueue → Request → Option TimerQueue
perform q (adds a) = add_timer_in_loop q a
perform q (cancels id) = cancel_in_loop q id

-- `in_loop` says that the caller is the loop's thread.
unfoldable pub run_in_loop : Bool → Requests → Request → Option Requests
run_in_loop true r x = perform r.queue x >>= λ q. some (record r { queue = q })
run_in_loop false r x = some (record r { tasks = r.tasks ++ (x ∷ []) })

-- `runTasks`, with the tasks that it has taken out of `tasks_`.
unfoldable pub run_tasks : Requests → List Request → Option Requests
run_tasks r [] = some r
run_tasks r (x ∷ xs) = perform r.queue x >>= λ q. run_tasks (record r { queue = q; tasks = [] }) xs

-- `addTimer` up to its return statement, where `a` is the address that `new` gives.
unfoldable pub start_timer : Bool → Requests → ℕ → ℕ → ℕ → Interval → Option Requests
start_timer in_loop r a callback when interval =
    let timer : Timer = record {
      callback = callback;
      time = when;
      interval = interval;
      sequence = suc r.num;
    } in
    run_in_loop in_loop
      (record r {
        queue = record r.queue { store = put a (some timer) r.queue.store };
        num = suc r.num;
      })
      (adds a)

-- Its return statement, which reads the timer.
unfoldable pub timer_id : Requests → ℕ → Option (ℕ × ℕ)
timer_id r a = r.queue.store a >>= λ t. some (a, t.sequence)

-- `addTimer` when the loop does nothing meanwhile.
unfoldable pub add_timer : Bool → Requests → ℕ → ℕ → ℕ → Interval → Option ((ℕ × ℕ) × Requests)
add_timer in_loop r a callback when interval =
    start_timer in_loop r a callback when interval >>= λ r'. timer_id r' a >>= λ id. some (id, r')

unfoldable pub cancel : Bool → Requests → ℕ × ℕ → Option Requests
cancel in_loop r id = run_in_loop in_loop r (cancels id)

-- The interval 0.0.
abbrev pub never : Interval
never = record { positive = false; micros = 0 }

-- `delay` and `interval.micros` are whole microseconds, as `addTime` adds them.
unfoldable pub run_at : Bool → Requests → ℕ → ℕ → ℕ → Option ((ℕ × ℕ) × Requests)
run_at in_loop r a time callback = add_timer in_loop r a callback time never

unfoldable pub run_after : Bool → Requests → ℕ → ℕ → ℕ → ℕ → Option ((ℕ × ℕ) × Requests)
run_after in_loop r a now delay callback = run_at in_loop r a (now + delay) callback

unfoldable pub run_every : Bool → Requests → ℕ → ℕ → Interval → ℕ → Option ((ℕ × ℕ) × Requests)
run_every in_loop r a now interval callback =
    add_timer in_loop r a callback (now + interval.micros) interval
