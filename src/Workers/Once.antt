-- ===== src/Workers/Once.antt =====
-- The tasks that a ThreadPool is given, against those that it has called and those that it has.
use kknet.Prelude.{
  ℕ, zero, suc, ◌+◌, ◌≡◌, refl, inl, inr, Bool-cases, Option, none, some, List, [], ◌∷◌, ◌++◌,
  length, ltb, if◌then◌else◌, ◌>>=◌, Each, Each-bind, arith, ◌==◌,
}
use kknet.Blocking.Defs.{
  BlockingQueue, put, is_full, take_from, notify_take, notify_put, resume_put, resume_take,
}
use kknet.Blocking.Defs
use kknet.Workers.Defs.{
  ThreadPool, Action, puts, takes, resumes_take, resumes_put, returns, calls, enters, step, run,
}
use kknet.Workers.Order.{Keeps, entered_run, run-Keeps}

-- How often a task is in a list.
abbrev pub count : ℕ → List ℕ → ℕ
count x [] = 0
count x (y ∷ ys) = if y == x then suc (count x ys) else count x ys

count-append : (x : ℕ) (xs ys : List ℕ) → count x (xs ++ ys) ≡ count x xs + count x ys
count-append x [] ys = omega arith
count-append x (y ∷ xs) ys = ground (arith, count-append x xs ys)

-- How often a queue has a task, among its elements and with the threads that wait in `put`.
abbrev pub holds : ℕ → BlockingQueue → ℕ
holds x q = count x q.queue + count x q.sleeping_puts + count x q.woken_puts

abbrev pub given_by : Action → List ℕ
given_by (puts x) = x ∷ []
given_by resumes_put = []
given_by takes = []
given_by resumes_take = []
given_by (returns i) = []

-- The tasks that are given to `put` in a sequence of actions.
unfoldable pub given : List Action → List ℕ
given [] = []
given (a ∷ rest) = given_by a ++ given rest

notify_take-holds : (x : ℕ) (q : BlockingQueue) (n : ℕ) → holds x (notify_take q n) ≡ holds x q
notify_take-holds x q zero = refl
notify_take-holds x q (suc n) = refl

notify_put-holds :
    (x : ℕ) (q : BlockingQueue) (ys : List ℕ)
    → q.sleeping_puts ≡ ys
    → holds x (notify_put q ys) ≡ holds x q
notify_put-holds x q [] e = refl
notify_put-holds x q (y ∷ ys) e = rw (e, count-append x q.woken_puts (y ∷ [])) (ground arith)

put-holds : (x : ℕ) (q : BlockingQueue) (y : ℕ) → holds x (put q y) ≡ holds x q + count x (y ∷ [])
unfolding put
put-holds x q y = elim (Bool-cases (is_full q)) [
  | inl full ↦ rw (full, count-append x q.sleeping_puts (y ∷ [])) (ground arith)
  | inr room ↦
      rw
        (
          room,
          notify_take-holds x (record q { queue = q.queue ++ (y ∷ []) }) q.sleeping_takes,
          count-append x q.queue (y ∷ []),
        )
        (ground arith)
]

take_from-holds :
    (x : ℕ) (q : BlockingQueue) (ys : List ℕ)
    → q.queue ≡ ys
    → count x (take_from q ys).0 + holds x (take_from q ys).1 ≡ holds x q
unfolding take_from
take_from-holds x q [] e = rw e (omega arith)
take_from-holds x q (y ∷ ys) e = elim (Bool-cases (q.max_queue_size == 0)) [
  | inl free ↦ rw (free, e) (ground arith)
  | inr bound ↦
      rw (bound, e, notify_put-holds x (record q { queue = ys }) q.sleeping_puts refl)
        (ground arith)
]

-- What is called, and what the queue has then, is what it had and what it was given.
Balanced : ℕ → ThreadPool → List ℕ → List ℕ × ThreadPool → Type 0
Balanced x p new r = count x r.0 + holds x r.1.queue ≡ holds x p.queue + count x new

resume_put-Balanced :
    (x : ℕ) (p : ThreadPool) (ys : List ℕ)
    → p.queue.woken_puts ≡ ys
    → Each (Balanced x p []) (resume_put p.queue ys >>= λ r. some ([], record p { queue = r.1 }))
unfolding Balanced
resume_put-Balanced x p [] e = tt
resume_put-Balanced x p (y ∷ ys) e =
    rw (put-holds x (record p.queue { woken_puts = ys }) y, e) (ground arith)

enters-Balanced : (x : ℕ) (p : ThreadPool) (n : ℕ) → Each (Balanced x p []) (enters p n)
unfolding Balanced Defs.take
enters-Balanced x p zero = tt
enters-Balanced x p (suc n) = omega (arith, take_from-holds x p.queue p.queue.queue refl)

resume_take-Balanced :
    (x : ℕ) (p : ThreadPool) (n : ℕ)
    → Each (Balanced x p []) (resume_take p.queue n >>= λ r. some (calls p r))
unfolding Balanced Defs.take
resume_take-Balanced x p zero = tt
resume_take-Balanced x p (suc n) =
    let q = record p.queue { woken_takes = n } in omega (arith, take_from-holds x q q.queue refl)

step-Balanced : (x : ℕ) (p : ThreadPool) (a : Action) → Each (Balanced x p (given_by a)) (step p a)
unfolding step Balanced
step-Balanced x p (puts y) = omega (arith, put-holds x p.queue y)
step-Balanced x p resumes_put = resume_put-Balanced x p p.queue.woken_puts refl
step-Balanced x p takes = enters-Balanced x p p.idle
step-Balanced x p resumes_take = resume_take-Balanced x p p.queue.woken_takes
step-Balanced x p (returns i) = elim (Bool-cases (ltb i (length p.running))) [
  | inl lt ↦ rw lt (omega arith)
  | inr ge ↦ rw ge tt
]

run-Balanced :
    (x : ℕ) (p : ThreadPool) (actions : List Action)
    → Each (Balanced x p (given actions)) (run p actions)
unfolding run given Balanced
run-Balanced x p [] = omega arith
run-Balanced x p (a ∷ rest) =
    Each-bind (Balanced x p (given_by a)) (Balanced x p (given_by a ++ given rest)) (step p a)
      (λ r. run r.1 rest >>= λ s. some (r.0 ++ s.0, s.1))
      (λ r h.
        Each-bind (Balanced x r.1 (given rest)) (Balanced x p (given_by a ++ given rest))
          (run r.1 rest) (λ s. some (r.0 ++ s.0, s.1))
          (λ s k.
            omega (arith, h, k, count-append x r.0 s.0, count-append x (given_by a) (given rest)))
          (run-Balanced x r.1 rest))
      (step-Balanced x p a)

-- The tasks are called in order, and each task is accounted for.
pub record Conserves (p : ThreadPool) (actions : List Action) (r : List ℕ × ThreadPool)
    : Type 0 where
  pub keeps : Keeps p (entered_run p actions) r
  pub balanced :
      (x : ℕ) → count x r.0 + holds x r.1.queue ≡ holds x p.queue + count x (given actions)

both :
    (p : ThreadPool) (actions : List Action) (o : Option (List ℕ × ThreadPool))
    → Each (Keeps p (entered_run p actions)) o
    → ((x : ℕ) → Each (Balanced x p (given actions)) o)
    → Each (Conserves p actions) o
unfolding Balanced
both p actions none k b = tt
both p actions (some r) k b = record { keeps = k; balanced = b }

-- Whatever the threads do, while the bound of the queue is not changed: the tasks called, in the
-- order of the calls, and then those in the queue are those that were in the queue and then those
-- that came in, in order. Each task has been called, is in the queue or waits in `put` as often,
-- taken together, as it was in the queue or waited there at first and has been given to `put` since:
-- none is lost, and none is called more often than it is given. The threads of the pool stay as many
-- as they were: idle, waiting in `take` or calling a task.
pub run-Conserves :
    (p : ThreadPool) (actions : List Action) → Each (Conserves p actions) (run p actions)
run-Conserves p actions =
    both p actions (run p actions) (run-Keeps p actions) (λ x. run-Balanced x p actions)
