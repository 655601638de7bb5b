-- ===== src/Loop/Order.antt =====
-- The tasks of an Eventloop that have been added, that wait and that have run, in their order.
use kknet.Prelude.{
  Each, ℕ, ◌≡◌, refl, sym, ap, subst, ◌∙◌, Bool, true, false, Option, none, some, List, [], ◌∷◌,
  ◌++◌, append-nil, append_assoc, if◌then◌else◌, ◌>>=◌,
}
use kknet.Loop.Defs.{
  Phase, waits, handles, runs, Eventloop, wakeup, wakeup_read_callback, add_task, queue_in_loop,
  take_tasks, pick, Action, posts, queues, adds, returns, reads, quits, takes, runs_task, ends,
  Done, end_tasks, run_task, step, run,
}

-- What `taskings` has outside `runTasks`.
abbrev pub IsEmptied : Phase → List ℕ → Type 0
IsEmptied runs ts = Unit {0}
IsEmptied waits ts = ts ≡ []
IsEmptied handles ts = ts ≡ []

-- The tasks that wait for their turn.
abbrev pub due : Eventloop → List ℕ
due l = l.taskings ++ l.tasks

-- What the action runs comes off the front of the tasks, and what it adds goes behind them.
pub record Turned (l : Eventloop) (d : Done) : Type 0 where
  pub line : d.ran ++ due d.loop ≡ due l ++ d.added
  pub emptied : IsEmptied d.loop.phase d.loop.taskings

pub if-Each :
    (P : Done → Type 0) (b : Bool) (x y : Option Done)
    → Each P x
    → Each P y
    → Each P (if b then x else y)
if-Each P true x y h k = h
if-Each P false x y h k = k

pub bind-Each :
    {A : Type 0} (P : Done → Type 0) (x : Option A) (f : A → Option Done)
    → ((a : A) → x ≡ some a → Each P (f a))
    → Each P (x >>= f)
bind-Each P none f h = tt
bind-Each P (some a) f h = h a refl

-- `addTask`, after a `wakeup` or without one.
adding-Turned :
    (b : Bool) (l : Eventloop) (t : ℕ)
    → IsEmptied l.phase l.taskings
    → Turned l (record { added = t ∷ []; ran = []; loop = add_task (if b then wakeup l else l) t })
unfolding add_task wakeup
adding-Turned true l t h = record {
  line = sym (append_assoc l.taskings l.tasks (t ∷ []));
  emptied = h;
}
adding-Turned false l t h = record {
  line = sym (append_assoc l.taskings l.tasks (t ∷ []));
  emptied = h;
}

adds-Turned :
    (l : Eventloop) (t : ℕ) (others : List ℕ)
    → IsEmptied l.phase l.taskings
    → Turned l
        (record { added = t ∷ []; ran = []; loop = add_task (record l { waking = others }) t })
unfolding add_task
adds-Turned l t others h = record {
  line = sym (append_assoc l.taskings l.tasks (t ∷ []));
  emptied = h;
}

kept :
    (l : Eventloop) (p : Phase)
    → l.phase ≡ p
    → IsEmptied p l.taskings
    → IsEmptied l.phase l.taskings
kept l p e h = subst (λ (q : Phase). IsEmptied q l.taskings) (sym e) h

run_task-Turned :
    (l : Eventloop) (ts : List ℕ)
    → l.phase ≡ runs
    → l.taskings ≡ ts
    → Each (Turned l) (run_task l ts)
run_task-Turned l [] e t = tt
run_task-Turned l (t ∷ ts) e f = record {
  line = rw f (sym (append-nil (t ∷ ts ++ l.tasks)));
  emptied = subst (λ (q : Phase). IsEmptied q ts) (sym e) tt;
}

end_tasks-Turned :
    (l : Eventloop) (ts : List ℕ) → l.taskings ≡ ts → Each (Turned l) (end_tasks l ts)
end_tasks-Turned l [] f = record { line = sym (append-nil (due l)); emptied = f }
end_tasks-Turned l (t ∷ ts) f = tt

taken : (l : Eventloop) → l.taskings ≡ [] → l.tasks ++ [] ≡ due l ++ []
taken l h = rw h refl

Turned-trans :
    (l : Eventloop) (d e : Done)
    → Turned l d
    → Turned d.loop e
    → Turned l (record { added = d.added ++ e.added; ran = d.ran ++ e.ran; loop = e.loop })
Turned-trans l d e t u = record {
  line =
      append_assoc d.ran e.ran (due e.loop)
      ∙ ap (λ (ts : List ℕ). d.ran ++ ts) u.line
      ∙ sym (append_assoc d.ran (due d.loop) e.added)
      ∙ ap (λ (ts : List ℕ). ts ++ e.added) t.line
      ∙ append_assoc (due l) d.added e.added;
  emptied = u.emptied;
}

step-Turned :
    (l : Eventloop) (p : Phase) (a : Action)
    → l.phase ≡ p
    → IsEmptied p l.taskings
    → Each (Turned l) (step l p a)
unfolding step wakeup wakeup_read_callback take_tasks queue_in_loop
step-Turned l p (posts t) e h = record { line = sym (append-nil (due l)); emptied = kept l p e h }
step-Turned l p (adds n) e h =
    bind-Each (Turned l) (pick n l.waking)
      (λ (x : ℕ × List ℕ).
        some
          (record { added = x.0 ∷ []; ran = []; loop = add_task (record l { waking = x.1 }) x.0 }))
      (λ x f. adds-Turned l x.0 x.1 (kept l p e h))
step-Turned l p quits e h = record { line = sym (append-nil (due l)); emptied = kept l p e h }
step-Turned l waits returns e h =
    if-Each (Turned l) l.quit none _ tt (record { line = sym (append-nil (due l)); emptied = h })
step-Turned l handles returns e h = tt
step-Turned l runs returns e h = tt
step-Turned l handles reads e h =
    if-Each (Turned l) l.woken _ none
      (record { line = sym (append-nil (due l)); emptied = kept l handles e h }) tt
step-Turned l waits reads e h = tt
step-Turned l runs reads e h = tt
step-Turned l handles (queues t) e h = adding-Turned l.event_handling l t (kept l handles e h)
step-Turned l runs (queues t) e h = adding-Turned l.event_handling l t (kept l runs e h)
step-Turned l waits (queues t) e h = tt
step-Turned l handles takes e h =
    if-Each (Turned l) l.woken none _ tt (record { line = taken l h; emptied = tt })
step-Turned l waits takes e h = tt
step-Turned l runs takes e h = tt
step-Turned l runs runs_task e h = run_task-Turned l l.taskings e refl
step-Turned l waits runs_task e h = tt
step-Turned l handles runs_task e h = tt
step-Turned l runs ends e h = end_tasks-Turned l l.taskings refl
step-Turned l waits ends e h = tt
step-Turned l handles ends e h = tt

-- Along any sequence of actions, from a loop that has taken tasks only if it is in `runTasks`, the
-- tasks that run are followed by those that still wait exactly as those that waited at first are
-- followed by those that were added, in the order of the calls of `addTask`: each task runs once at
-- most, and in that order.
pub run-Turned :
    (l : Eventloop) (actions : List Action)
    → IsEmptied l.phase l.taskings
    → Each (Turned l) (run l actions)
unfolding run
run-Turned l [] h = record { line = sym (append-nil (due l)); emptied = h }
run-Turned l (a ∷ rest) h =
    bind-Each (Turned l) (step l l.phase a)
      (λ d. run d.loop rest >>= λ e.
        some (record { added = d.added ++ e.added; ran = d.ran ++ e.ran; loop = e.loop }))
      (λ d s.
        let t = subst (Each (Turned l)) s (step-Turned l l.phase a refl h) in
        bind-Each (Turned l) (run d.loop rest)
          (λ e. some (record { added = d.added ++ e.added; ran = d.ran ++ e.ran; loop = e.loop }))
          (λ e r.
            Turned-trans l d e t
              (subst (Each (Turned d.loop)) r (run-Turned d.loop rest t.emptied))))
