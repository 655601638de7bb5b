-- ===== src/Loop/Waking.antt =====
-- Whether an Eventloop that waits has been woken for the tasks that it has.
use kknet.Prelude.{
  Each, ℕ, ◌≡◌, refl, sym, subst, ◌∙◌, Bool, true, false, none, some, List, [], ◌∷◌, ◌++◌, ◌>>=◌,
  arith, All,
}
use kknet.Loop.Defs.{
  Phase, waits, handles, runs, Eventloop, wakeup, wakeup_read_callback, add_task, queue_in_loop,
  take_tasks, pick, Action, posts, queues, adds, returns, reads, quits, takes, runs_task, ends,
  Done, end_tasks, run_task, step, run,
}
use kknet.Loop.Order.{if-Each, bind-Each}

-- Outside the handlers, the wakeup descriptor is readable if there are tasks.
abbrev pub IsHeard : Phase → List ℕ → Bool → Type 0
IsHeard handles ts b = Unit {0}
IsHeard waits [] b = Unit {0}
IsHeard waits (t ∷ ts) b = b ≡ true
IsHeard runs [] b = Unit {0}
IsHeard runs (t ∷ ts) b = b ≡ true

abbrev pub IsRunning : Phase → Bool → Type 0
IsRunning runs b = b ≡ true
IsRunning waits b = Unit {0}
IsRunning handles b = Unit {0}

pub record IsAwake (l : Eventloop) : Type 0 where
  pub heard : IsHeard l.phase l.tasks l.signalled
  pub running : IsRunning l.phase l.event_handling

-- What the loop's own thread does, and what other threads do up to `addTask`.
abbrev pub IsOwn : Action → Type 0
IsOwn (adds n) = ⊥
IsOwn _ = Unit {0}

abbrev IsAwakeAfter : Done → Type 0
IsAwakeAfter d = IsAwake d.loop

signalled-IsHeard : (p : Phase) (ts : List ℕ) → IsHeard p ts true
signalled-IsHeard handles ts = tt
signalled-IsHeard waits [] = tt
signalled-IsHeard waits (t ∷ ts) = refl
signalled-IsHeard runs [] = tt
signalled-IsHeard runs (t ∷ ts) = refl

ended-IsHeard : (ts : List ℕ) (b : Bool) → IsHeard runs ts b → IsHeard waits ts b
ended-IsHeard [] b h = tt
ended-IsHeard (t ∷ ts) b h = h

handling-IsAwake : (l : Eventloop) → l.phase ≡ handles → IsAwake l
handling-IsAwake l e = record {
  heard = subst (λ (q : Phase). IsHeard q l.tasks l.signalled) (sym e) tt;
  running = subst (λ (q : Phase). IsRunning q l.event_handling) (sym e) tt;
}

queue-phase : (l : Eventloop) (t : ℕ) → (queue_in_loop l true t).phase ≡ l.phase
unfolding queue_in_loop add_task wakeup
queue-phase l t = ground arith

run_task-IsAwake : (l : Eventloop) (ts : List ℕ) → IsAwake l → Each IsAwakeAfter (run_task l ts)
run_task-IsAwake l [] h = tt
run_task-IsAwake l (t ∷ ts) h = record { heard = h.heard; running = h.running }

end_tasks-IsAwake :
    (l : Eventloop) (ts : List ℕ)
    → IsHeard runs l.tasks l.signalled
    → Each IsAwakeAfter (end_tasks l ts)
end_tasks-IsAwake l [] h = record { heard = ended-IsHeard l.tasks l.signalled h; running = tt }
end_tasks-IsAwake l (t ∷ ts) h = tt

running-queues :
    (l : Eventloop) (t : ℕ) → l.event_handling ≡ true → IsAwake l → IsAwake (queue_in_loop l true t)
unfolding queue_in_loop add_task wakeup
running-queues l t on h = rw on (record {
  heard = signalled-IsHeard l.phase (l.tasks ++ (t ∷ []));
  running = subst (IsRunning l.phase) on h.running;
})

step-IsAwake :
    (l : Eventloop) (p : Phase) (a : Action)
    → l.phase ≡ p
    → IsOwn a
    → IsAwake l
    → Each IsAwakeAfter (step l p a)
unfolding step wakeup wakeup_read_callback take_tasks
step-IsAwake l p (posts t) e o h = record {
  heard = signalled-IsHeard l.phase l.tasks;
  running = h.running;
}
step-IsAwake l p (adds n) e o h = absurd o
step-IsAwake l p quits e o h = record { heard = h.heard; running = h.running }
step-IsAwake l waits returns e o h =
    if-Each IsAwakeAfter l.quit none _ tt (record { heard = tt; running = tt })
step-IsAwake l handles returns e o h = tt
step-IsAwake l runs returns e o h = tt
step-IsAwake l handles reads e o h =
    if-Each IsAwakeAfter l.woken _ none
      (handling-IsAwake (record l { signalled = false; woken = false }) e) tt
step-IsAwake l waits reads e o h = tt
step-IsAwake l runs reads e o h = tt
step-IsAwake l handles (queues t) e o h =
    handling-IsAwake (queue_in_loop l true t) (queue-phase l t ∙ e)
step-IsAwake l runs (queues t) e o h =
    running-queues l t (subst (λ (q : Phase). IsRunning q l.event_handling) e h.running) h
step-IsAwake l waits (queues t) e o h = tt
step-IsAwake l handles takes e o h =
    if-Each IsAwakeAfter l.woken none _ tt (record { heard = tt; running = refl })
step-IsAwake l waits takes e o h = tt
step-IsAwake l runs takes e o h = tt
step-IsAwake l runs runs_task e o h = run_task-IsAwake l l.taskings h
step-IsAwake l waits runs_task e o h = tt
step-IsAwake l handles runs_task e o h = tt
step-IsAwake l runs ends e o h =
    end_tasks-IsAwake l l.taskings (subst (λ (q : Phase). IsHeard q l.tasks l.signalled) e h.heard)
step-IsAwake l waits ends e o h = tt
step-IsAwake l handles ends e o h = tt

-- As long as no other thread completes a `queueInLoop`, a loop that outside of its handlers has
-- tasks only with its wakeup descriptor readable stays so: it does not wait for a time while it has
-- tasks.
pub run-IsAwake :
    (l : Eventloop) (actions : List Action)
    → IsAwake l
    → All IsOwn actions
    → Each (λ (d : Done). IsAwake d.loop) (run l actions)
unfolding run
run-IsAwake l [] h o = h
run-IsAwake l (a ∷ rest) h o =
    bind-Each IsAwakeAfter (step l l.phase a)
      (λ d. run d.loop rest >>= λ e.
        some (record { added = d.added ++ e.added; ran = d.ran ++ e.ran; loop = e.loop }))
      (λ d s.
        let t = subst (Each IsAwakeAfter) s (step-IsAwake l l.phase a refl o.0 h) in
        bind-Each IsAwakeAfter (run d.loop rest)
          (λ e. some (record { added = d.added ++ e.added; ran = d.ran ++ e.ran; loop = e.loop }))
          (λ e r. subst (Each IsAwakeAfter) r (run-IsAwake d.loop rest t o.1)))

-- Another thread's `queueInLoop` wakes the loop before it adds the task. When a loop that waits
-- without tasks has a turn between the two, it waits again with the task in its list and its wakeup
-- descriptor not readable.
pub run_loses_wakeup :
    (l : Eventloop) (t : ℕ)
    → l.phase ≡ waits
    → l.quit ≡ false
    → l.tasks ≡ []
    → l.taskings ≡ []
    → l.waking ≡ []
    → l.signalled ≡ false
    → (l' : Eventloop) × (run l (posts t ∷ returns ∷ reads ∷ takes ∷ ends ∷ adds 0 ∷ [])
        ≡ some (record { added = t ∷ []; ran = []; loop = l' }))
      × (l'.phase ≡ waits)
      × (l'.tasks ≡ t ∷ [])
      × (l'.signalled ≡ false)
      × (l'.waking ≡ [])
unfolding run step wakeup wakeup_read_callback take_tasks add_task pick
run_loses_wakeup l t e q ts tk w s = (
  record {
    phase = waits;
    signalled = false;
    woken = false;
    event_handling = false;
    quit = false;
    tasks = t ∷ [];
    taskings = [];
    waking = [];
  },
  rw (e, q, w, ts) refl,
  refl,
  refl,
  refl,
  refl,
)
