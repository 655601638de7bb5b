-- ===== src/Blocking/Tests.antt =====
-- A queue of two elements with threads that wait.
use kknet.Prelude.{Each, ℕ, ◌≡◌, refl, some, List, [], ◌∷◌, inl, inr, arith}
use kknet.Blocking.Defs.{
  BlockingQueue, Action, puts, takes, resumes_put, resumes_take, new, set_max_queue_size, put, take,
  take_from, step, run,
}
use kknet.Blocking.Waiting.{IsServed, run-IsServed}
use kknet.Blocking.Progress.{step-takes}

abbrev two : BlockingQueue
two = set_max_queue_size new 2

abbrev actions : List Action
actions = takes ∷ puts 1 ∷ puts 2 ∷ puts 3 ∷ resumes_take ∷ resumes_put ∷ takes ∷ []

actions-run :
    run two actions
    ≡ some (
      1 ∷ 2 ∷ [],
      record {
        queue = 3 ∷ [];
        max_queue_size = 2;
        sleeping_takes = 0;
        woken_takes = 0;
        sleeping_puts = [];
        woken_puts = [];
      },
    )
unfolding run step put take take_from new set_max_queue_size
actions-run = refl

two-IsServed : IsServed 0 0 two
unfolding new set_max_queue_size
two-IsServed = record { served = inl refl; filled = inl refl; bounded = inr (omega arith) }

run-IsServed_example : Each (λ (r : List ℕ × BlockingQueue). IsServed 0 0 r.1) (run two actions)
run-IsServed_example = run-IsServed two actions two-IsServed

abbrev hungry : BlockingQueue
hungry = record {
  queue = 5 ∷ 6 ∷ [];
  max_queue_size = 0;
  sleeping_takes = 1;
  woken_takes = 2;
  sleeping_puts = [];
  woken_puts = [];
}

step-takes_example : (q' : BlockingQueue) × (step hungry resumes_take ≡ some (5 ∷ [], q'))
step-takes_example =
    step-takes hungry 5 (6 ∷ [])
      (record { served = inr (omega arith); filled = inl refl; bounded = inl refl }) refl
      (omega arith)

abbrev stuffed : BlockingQueue
stuffed = record {
  queue = 5 ∷ [];
  max_queue_size = 2;
  sleeping_takes = 0;
  woken_takes = 0;
  sleeping_puts = 8 ∷ [];
  woken_puts = 7 ∷ [];
}
