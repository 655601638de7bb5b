-- ===== src/Loop/Defs.antt =====
-- An Eventloop with the tasks that its thread and other threads give it. A task stands for its
-- function. What the threads do is a sequence of actions, each between two accesses to shared
-- state.
use kknet.Prelude.{
  ℕ, zero, suc, Bool, true, false, not, ◌||◌, Option, none, some, List, [], ◌∷◌, ◌++◌,
  if◌then◌else◌, ◌>>=◌,
}

-- Where the loop's thread is: in `wait`, in the handlers, or in `runTasks`.
pub data Phase : Type 0 where
  waits handles runs : Phase

-- `signalled` says that the wakeup descriptor can be read, and `woken` that `wait` has listed its
-- handler, which has not run. `taskings` are the tasks that `runTasks` has still to run. `waking`
-- are the tasks of other threads that are in `queueInLoop` between `wakeup` and `addTask`.
pub record Eventloop : Type 0 where
  pub phase : Phase
  pub signalled : Bool
  pub woken : Bool
  pub event_handling : Bool
  pub quit : Bool
  pub tasks : List ℕ
  pub taskings : List ℕ
  pub waking : List ℕ

unfoldable pub init : Eventloop
init = record {
  phase = waits;
  signalled = false;
  woken = false;
  event_handling = false;
  quit = false;
  tasks = [];
  taskings = [];
  waking = [];
}

unfoldable pub wakeup : Eventloop → Eventloop
wakeup l = record l { signalled = true }

unfoldable pub wakeup_read_callback : Eventloop → Eventloop
wakeup_read_callback l = record l { signalled = false; woken = false }

unfoldable pub add_task : Eventloop → ℕ → Eventloop
add_task l t = record l { tasks = l.tasks ++ (t ∷ []) }

-- `queueInLoop` as a whole, which is what the loop's own thread does.
unfoldable pub queue_in_loop : Eventloop → Bool → ℕ → Eventloop
queue_in_loop l in_loop_thread t =
    add_task (if not in_loop_thread || l.event_handling then wakeup l else l) t

-- `eventHandling_ = true` and the swap of `runTasks`.
unfoldable pub take_tasks : Eventloop → Eventloop
take_tasks l = record l { phase = runs; event_handling = true; taskings = l.tasks; tasks = [] }

-- The `n`-th element, and the others.
unfoldable pub pick : ℕ → List ℕ → Option (ℕ × List ℕ)
pick n [] = none
pick zero (x ∷ xs) = some (x, xs)
pick (suc n) (x ∷ xs) = pick n xs >>= λ p. some (p.0, x ∷ p.1)

-- `posts` and `adds` are the halves of `queueInLoop` in another thread; `queues` is the whole of
-- it in a handler or a task. `reads` is the wakeup handler.
pub data Action : Type 0 where
  posts queues adds : ℕ → Action
  returns reads quits takes runs_task ends : Action

-- The tasks that the action adds to `tasks_` and those that it begins to run, and the loop after
-- it, if the action can happen. `quits` is `setQuit`: the loop then enters `wait` no more. A call of
-- `setQuit` while the loop is in `wait`, which has the turn that it is in still to do, stands behind
-- that turn here: nothing but the test before `wait` looks at `quit_`.
pub record Done : Type 0 where
  pub added : List ℕ
  pub ran : List ℕ
  pub loop : Eventloop

abbrev pub quietly : Eventloop → Option Done
quietly l = some (record { added = []; ran = []; loop = l })

abbrev pub end_tasks : Eventloop → List ℕ → Option Done
end_tasks l [] = quietly (record l { phase = waits; event_handling = false })
end_tasks l (t ∷ ts) = none

abbrev pub run_task : Eventloop → List ℕ → Option Done
run_task l [] = none
run_task l (t ∷ ts) = some (record { added = []; ran = t ∷ []; loop = record l { taskings = ts } })

unfoldable pub step : Eventloop → Phase → Action → Option Done
step l p (posts t) = quietly (record (wakeup l) { waking = l.waking ++ (t ∷ []) })
step l p (adds n) = pick n l.waking >>= λ x.
    some (record { added = x.0 ∷ []; ran = []; loop = add_task (record l { waking = x.1 }) x.0 })
step l p quits = quietly (record l { quit = true })
step l waits returns =
    if l.quit then none else quietly (record l { phase = handles; woken = l.signalled })
step l handles returns = none
step l runs returns = none
step l handles reads = if l.woken then quietly (wakeup_read_callback l) else none
step l waits reads = none
step l runs reads = none
step l handles (queues t) =
    some (record { added = t ∷ []; ran = []; loop = queue_in_loop l true t })
step l runs (queues t) = some (record { added = t ∷ []; ran = []; loop = queue_in_loop l true t })
step l waits (queues t) = none
step l handles takes = if l.woken then none else quietly (take_tasks l)
step l waits takes = none
step l runs takes = none
step l runs runs_task = run_task l l.taskings
step l waits runs_task = none
step l handles runs_task = none
step l runs ends = end_tasks l l.taskings
step l waits ends = none
step l handles ends = none

unfoldable pub run : Eventloop → List Action → Option Done
run l [] = quietly l
run l (a ∷ rest) = step l l.phase a >>= λ d. run d.loop rest >>= λ e.
    some (record { added = d.added ++ e.added; ran = d.ran ++ e.ran; loop = e.loop })
