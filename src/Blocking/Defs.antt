-- ===== src/Blocking/Defs.antt =====
-- A BlockingQueue of numbers, with its waiting threads. A thread holds the mutex from the lock, or
-- from the return of `wait`, to the next `wait` or the unlock: that is one step. A thread returns
-- from `wait` only when it has been notified: spurious wakeups are left out.
use kknet.Prelude.{
  ℕ, zero, suc, Bool, not, ◌&&◌, Option, none, some, List, [], ◌∷◌, ◌++◌, length, leb, ◌==◌,
  if◌then◌else◌, ◌>>=◌,
}

-- `sleeping_takes` threads are in `notEmpty_.wait()`, and `woken_takes` have been notified there
-- and have not gone on. In the same way `sleeping_puts` and `woken_puts` in `notFull_.wait()`,
-- which the elements that they put stand for.
pub record BlockingQueue : Type 0 where
  pub queue : List ℕ
  pub max_queue_size : ℕ
  pub sleeping_takes : ℕ
  pub woken_takes : ℕ
  pub sleeping_puts : List ℕ
  pub woken_puts : List ℕ

unfoldable pub new : BlockingQueue
new = record {
  queue = [];
  max_queue_size = 0;
  sleeping_takes = 0;
  woken_takes = 0;
  sleeping_puts = [];
  woken_puts = [];
}

unfoldable pub set_max_queue_size : BlockingQueue → ℕ → BlockingQueue
set_max_queue_size q size = record q { max_queue_size = size }

-- `notEmpty_.notify()`
abbrev pub notify_take : BlockingQueue → ℕ → BlockingQueue
notify_take q zero = q
notify_take q (suc n) = record q { sleeping_takes = n; woken_takes = suc q.woken_takes }

-- `notFull_.notify()`. Which thread it wakes is not said: the model wakes the first one.
abbrev pub notify_put : BlockingQueue → List ℕ → BlockingQueue
notify_put q [] = q
notify_put q (x ∷ xs) = record q { sleeping_puts = xs; woken_puts = q.woken_puts ++ (x ∷ []) }

abbrev pub is_full : BlockingQueue → Bool
is_full q = not (q.max_queue_size == 0) && leb q.max_queue_size (length q.queue)

-- `put` from the test of the size on.
unfoldable pub put : BlockingQueue → ℕ → BlockingQueue
put q x =
    if is_full q
    then record q { sleeping_puts = q.sleeping_puts ++ (x ∷ []) }
    else notify_take (record q { queue = q.queue ++ (x ∷ []) }) q.sleeping_takes

-- `take` from the test of the queue on: the element, unless the thread waits.
unfoldable pub take_from : BlockingQueue → List ℕ → List ℕ × BlockingQueue
take_from q [] = ([], record q { sleeping_takes = suc q.sleeping_takes })
take_from q (x ∷ xs) = (
  x ∷ [],
  if q.max_queue_size == 0
      then record q { queue = xs }
      else notify_put (record q { queue = xs }) q.sleeping_puts,
)

unfoldable pub take : BlockingQueue → List ℕ × BlockingQueue
take q = take_from q q.queue

-- No action changes the bound, which is set before. `resumes_put` and `resumes_take` are threads that have been notified and test again.
pub data Action : Type 0 where
  puts : ℕ → Action
  takes resumes_put resumes_take : Action

abbrev pub resume_put : BlockingQueue → List ℕ → Option (List ℕ × BlockingQueue)
resume_put q [] = none
resume_put q (x ∷ xs) = some ([], put (record q { woken_puts = xs }) x)

abbrev pub resume_take : BlockingQueue → ℕ → Option (List ℕ × BlockingQueue)
resume_take q zero = none
resume_take q (suc n) = some (take (record q { woken_takes = n }))

-- The elements that `take` returns, and the queue after the action, if it can happen.
unfoldable pub step : BlockingQueue → Action → Option (List ℕ × BlockingQueue)
step q (puts x) = some ([], put q x)
step q takes = some (take q)
step q resumes_put = resume_put q q.woken_puts
step q resumes_take = resume_take q q.woken_takes

-- The elements taken by a sequence of actions, and the queue after it.
unfoldable pub run : BlockingQueue → List Action → Option (List ℕ × BlockingQueue)
run q [] = some ([], q)
run q (a ∷ rest) = step q a >>= λ r. run r.1 rest >>= λ s. some (r.0 ++ s.0, s.1)
