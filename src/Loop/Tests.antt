-- ===== src/Loop/Tests.antt =====
-- An Eventloop with tasks of its own and of another thread.
use kknet.Prelude.{Each, ◌≡◌, refl, true, false, some, List, [], ◌∷◌}
use kknet.Loop.Defs.{
  Eventloop, Action, Done, waits, posts, queues, adds, returns, reads, takes, runs_task, ends, init,
  run, step, wakeup, wakeup_read_callback, take_tasks, add_task, queue_in_loop, pick,
}
use kknet.Loop.Order.{Turned, run-Turned}
use kknet.Loop.Waking.{IsAwake, run-IsAwake, run_loses_wakeup}
use kknet.Loop.Turns.{turn, run-turn}

-- Two threads post, the second one is faster, and the first task queues another one.
abbrev busy : List Action
busy =
    posts 1
    ∷ posts 2
    ∷ returns
    ∷ adds 1
    ∷ reads
    ∷ adds 0
    ∷ takes
    ∷ runs_task
    ∷ queues 3
    ∷ runs_task
    ∷ ends
    ∷ returns
    ∷ reads
    ∷ takes
    ∷ runs_task
    ∷ ends
    ∷ []

busy_runs :
    run init busy ≡ some (record { added = 2 ∷ 1 ∷ 3 ∷ []; ran = 2 ∷ 1 ∷ 3 ∷ []; loop = init })
unfolding run step init wakeup wakeup_read_callback take_tasks add_task queue_in_loop pick
busy_runs = refl

run-Turned_example : Each (Turned init) (run init busy)
unfolding init
run-Turned_example = run-Turned init busy refl

abbrev own : List Action
own = returns ∷ queues 4 ∷ takes ∷ runs_task ∷ queues 5 ∷ ends ∷ []

run-IsAwake_example : Each (λ (d : Done). IsAwake d.loop) (run init own)
unfolding init
run-IsAwake_example =
    run-IsAwake init own (record { heard = tt; running = tt })
      (tt, (tt, (tt, (tt, (tt, (tt, tt))))))

run_loses_wakeup_example :
    (l' : Eventloop) × (run init (posts 9 ∷ returns ∷ reads ∷ takes ∷ ends ∷ adds 0 ∷ [])
      ≡ some (record { added = 9 ∷ []; ran = []; loop = l' }))
    × (l'.phase ≡ waits)
    × (l'.tasks ≡ 9 ∷ [])
    × (l'.signalled ≡ false)
    × (l'.waking ≡ [])
unfolding init
run_loses_wakeup_example = run_loses_wakeup init 9 refl refl refl refl refl refl

abbrev waiting : Eventloop
waiting = record {
  phase = waits;
  signalled = true;
  woken = false;
  event_handling = false;
  quit = false;
  tasks = 4 ∷ 6 ∷ [];
  taskings = [];
  waking = [];
}

run-turn_example :
    run waiting (turn waiting)
    ≡ some (record {
      added = [];
      ran = 4 ∷ 6 ∷ [];
      loop = record waiting {
        signalled = false;
        woken = false;
        event_handling = false;
        tasks = [];
        taskings = [];
      };
    })
run-turn_example = run-turn waiting refl refl
