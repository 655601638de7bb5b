-- ===== src/Workers/Tests.antt =====
-- Two threads, a queue of at most one task, and three tasks.
use kknet.Prelude.{◌≡◌, refl, Each, some, List, [], ◌∷◌}
use kknet.Blocking.Defs.{BlockingQueue, put, take_from, set_max_queue_size}
use kknet.Blocking.Defs
use kknet.Workers.Defs.{
  ThreadPool, init, set_max, start, Action, puts, takes, resumes_take, resumes_put, returns, step,
  run,
}
use kknet.Workers.Once.{Conserves, run-Conserves}

abbrev pool : ThreadPool
pool = record {
  queue = record {
    queue = [];
    max_queue_size = 1;
    sleeping_takes = 0;
    woken_takes = 0;
    sleeping_puts = [];
    woken_puts = [];
  };
  thread_size = 2;
  idle = 2;
  running = [];
}

pool_starts : start (set_max (init 2) 1) ≡ pool
unfolding start set_max init Defs.new set_max_queue_size
pool_starts = refl

-- One thread sleeps before the first task, and the third task waits for room.
abbrev actions : List Action
actions =
    takes ∷ puts 7 ∷ puts 8 ∷ resumes_take ∷ resumes_put ∷ takes ∷ returns 0 ∷ puts 9 ∷ takes ∷ []

calls_each :
    run pool actions ≡ some (7 ∷ 8 ∷ 9 ∷ [], record pool { idle = 0; running = 8 ∷ 9 ∷ [] })
unfolding run step put Defs.take take_from
calls_each = refl

run-Conserves_example : Each (Conserves pool actions) (run pool actions)
run-Conserves_example = run-Conserves pool actions
