-- ===== src/Loop/Turns.antt =====
-- A turn of an Eventloop, from one `wait` to the next.
use kknet.Prelude.{Bool-cases, replicate, length, if◌then◌else◌, ◌++◌}
use kknet.Prelude.{
  ℕ, ◌≡◌, refl, inl, inr, true, false, some, List, [], ◌∷◌, ◌++◌, if◌then◌else◌, Bool-cases,
  replicate, length,
}
use kknet.Loop.Defs.{
  waits, runs, Eventloop, wakeup_read_callback, take_tasks, Action, returns, reads, takes,
  runs_task, ends, step, run,
}

-- One turn of `loop`: the return of `wait`, the wakeup handler if it has to run, and `runTasks`.
unfoldable pub turn : Eventloop → List Action
turn l =
    returns ∷ (if l.signalled then reads ∷ [] else [])
    ++ (takes ∷ replicate (length l.tasks) runs_task ++ (ends ∷ []))

run_task-first :
    (l : Eventloop) (t : ℕ) (ts : List ℕ)
    → l.phase ≡ runs
    → l.taskings ≡ t ∷ ts
    → step l l.phase runs_task
      ≡ some (record { added = []; ran = t ∷ []; loop = record l { taskings = ts } })
unfolding step
run_task-first l t ts e f = rw (e, f) refl

drains :
    (l : Eventloop) (ts : List ℕ)
    → l.phase ≡ runs
    → l.taskings ≡ ts
    → run l (replicate (length ts) runs_task ++ (ends ∷ []))
      ≡ some (record {
        added = [];
        ran = ts;
        loop = record l { phase = waits; event_handling = false; taskings = [] };
      })
unfolding run step
drains l [] e f = rw (e, f) refl
drains l (t ∷ ts) e f =
    rw (run_task-first l t ts e f) (rw (drains (record l { taskings = ts }) ts e refl) refl)

-- A loop that waits and has not been told to quit can have a turn, in which all its tasks run, and
-- waits again with none and with its wakeup descriptor read.
pub run-turn :
    (l : Eventloop)
    → l.phase ≡ waits
    → l.quit ≡ false
    → run l (turn l)
      ≡ some (record {
        added = [];
        ran = l.tasks;
        loop = record l {
          signalled = false;
          woken = false;
          event_handling = false;
          tasks = [];
          taskings = [];
        };
      })
unfolding run step turn wakeup_read_callback take_tasks
run-turn l e q =
    let l' : Eventloop = record l {
      phase = runs;
      signalled = false;
      woken = false;
      event_handling = true;
      quit = false;
      tasks = [];
      taskings = l.tasks;
    } in
    let rest = drains l' l.tasks refl refl in
    elim (Bool-cases l.signalled) [
      | inl on ↦ rw (e, q, on) (rw rest refl)
      | inr off ↦ rw (e, q, off) (rw rest refl)
    ]
