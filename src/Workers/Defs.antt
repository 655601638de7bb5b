-- ===== src/Workers/Defs.antt =====
-- A ThreadPool: the BlockingQueue of its tasks, and where its threads are. A task stands for the
-- function that it calls, which returns.
use kknet.Prelude.{
  ℕ, zero, suc, Option, none, some, List, [], ◌∷◌, ◌++◌, length, take, drop, ltb, if◌then◌else◌,
  ◌>>=◌,
}
use kknet.Blocking.Defs.{BlockingQueue, set_max_queue_size, put, resume_put}
use kknet.Blocking.Defs

-- `idle` threads are before `queue_.take()`, those in it are counted in the queue, and each task of
-- `running` is called by one thread.
pub record ThreadPool : Type 0 where
  pub queue : BlockingQueue
  pub thread_size : ℕ
  pub idle : ℕ
  pub running : List ℕ

unfoldable pub init : ℕ → ThreadPool
unfolding Defs.new
init size = record { queue = Defs.new; thread_size = size; idle = 0; running = [] }

unfoldable pub set_max : ThreadPool → ℕ → ThreadPool
unfolding set_max_queue_size
set_max p size = record p { queue = set_max_queue_size p.queue size }

-- `start`: each thread begins with `runFunc`.
unfoldable pub start : ThreadPool → ThreadPool
start p = record p { idle = p.thread_size }

pub data Action : Type 0 where
  puts : ℕ → Action
  resumes_put : Action
  -- A thread goes into `take`, or goes on in it.
  takes resumes_take : Action
  -- The task at this place of `running` returns.
  returns : ℕ → Action

-- The tasks that `take` has returned are called.
abbrev pub calls : ThreadPool → List ℕ × BlockingQueue → List ℕ × ThreadPool
calls p (got, q) = (got, record p { queue = q; running = p.running ++ got })

abbrev pub enters : ThreadPool → ℕ → Option (List ℕ × ThreadPool)
enters p zero = none
enters p (suc n) = some (calls (record p { idle = n }) (Defs.take p.queue))

-- The tasks that are called, and the pool after the action, if it can happen.
unfoldable pub step : ThreadPool → Action → Option (List ℕ × ThreadPool)
unfolding put Defs.take
step p (puts x) = some ([], record p { queue = put p.queue x })
step p resumes_put =
    resume_put p.queue p.queue.woken_puts >>= λ r. some ([], record p { queue = r.1 })
step p takes = enters p p.idle
step p resumes_take = Defs.resume_take p.queue p.queue.woken_takes >>= λ r. some (calls p r)
step p (returns i) =
    if ltb i (length p.running)
    then some
        ([], record p { idle = suc p.idle; running = take i p.running ++ drop (suc i) p.running })
    else none

-- All tasks called, in order.
unfoldable pub run : ThreadPool → List Action → Option (List ℕ × ThreadPool)
run p [] = some ([], p)
run p (a ∷ rest) = step p a >>= λ r. run r.1 rest >>= λ s. some (r.0 ++ s.0, s.1)
