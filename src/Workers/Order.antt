-- ===== src/Workers/Order.antt =====
-- The tasks of a ThreadPool that come in and that are called, in their order.
use kknet.Prelude.{
  ℕ, zero, suc, ◌+◌, ◌<◌, ◌≡◌, refl, sym, ap, ◌∙◌, inl, inr, true, Bool-cases, Option, none, some,
  List, [], ◌∷◌, ◌++◌, length, take, drop, ltb, if◌then◌else◌, ◌>>=◌, Each, Each-bind, arith,
  append-nil, append_assoc, length-append, length-take, length-drop, ◌==◌,
}
use kknet.Blocking.Defs.{
  BlockingQueue, put, is_full, take_from, notify_take, notify_put, resume_put, resume_take,
}
use kknet.Blocking.Defs
use kknet.Workers.Defs.{
  ThreadPool, Action, puts, takes, resumes_take, resumes_put, returns, calls, enters, step, run,
}

-- The task that comes into the queue by an action, if one does.
abbrev pub entered_by : BlockingQueue → ℕ → List ℕ
entered_by q x = if is_full q then [] else x ∷ []

abbrev pub resumed : BlockingQueue → List ℕ → List ℕ
resumed q [] = []
resumed q (x ∷ xs) = entered_by q x

abbrev pub entered : ThreadPool → Action → List ℕ
entered p (puts x) = entered_by p.queue x
entered p resumes_put = resumed p.queue p.queue.woken_puts
entered p takes = []
entered p resumes_take = []
entered p (returns i) = []

-- The tasks called, and then those in the queue, are those that were in the queue, and then those
-- that came in. No thread is lost.
pub record Keeps (p : ThreadPool) (new : List ℕ) (r : List ℕ × ThreadPool) : Type 0 where
  pub order : r.0 ++ r.1.queue.queue ≡ p.queue.queue ++ new
  pub threads :
      r.1.idle + r.1.queue.sleeping_takes + r.1.queue.woken_takes + length r.1.running
      ≡ p.idle + p.queue.sleeping_takes + p.queue.woken_takes + length p.running

notify_take-queue : (q : BlockingQueue) (n : ℕ) → (notify_take q n).queue ≡ q.queue
notify_take-queue q zero = refl
notify_take-queue q (suc n) = refl

notify_take-threads :
    (q : BlockingQueue) (n : ℕ)
    → q.sleeping_takes ≡ n
    → (notify_take q n).sleeping_takes + (notify_take q n).woken_takes
      ≡ q.sleeping_takes + q.woken_takes
notify_take-threads q zero e = refl
notify_take-threads q (suc n) e = omega arith

put-queue : (q : BlockingQueue) (x : ℕ) → (put q x).queue ≡ q.queue ++ entered_by q x
unfolding put
put-queue q x = elim (Bool-cases (is_full q)) [
  | inl full ↦ rw full (sym (append-nil q.queue))
  | inr room ↦
      rw room (notify_take-queue (record q { queue = q.queue ++ (x ∷ []) }) q.sleeping_takes)
]

put-threads :
    (q : BlockingQueue) (x : ℕ)
    → (put q x).sleeping_takes + (put q x).woken_takes ≡ q.sleeping_takes + q.woken_takes
unfolding put
put-threads q x = elim (Bool-cases (is_full q)) [
  | inl full ↦ rw full refl
  | inr room ↦
      rw room (notify_take-threads (record q { queue = q.queue ++ (x ∷ []) }) q.sleeping_takes refl)
]

notify_put-same :
    (q : BlockingQueue) (xs : List ℕ)
    → ((notify_put q xs).queue ≡ q.queue)
      × ((notify_put q xs).sleeping_takes ≡ q.sleeping_takes)
      × ((notify_put q xs).woken_takes ≡ q.woken_takes)
notify_put-same q [] = (refl, refl, refl)
notify_put-same q (x ∷ xs) = (refl, refl, refl)

-- `take` returns the first element and one thread fewer waits, or one more thread sleeps.
take_from-keeps :
    (q : BlockingQueue) (xs : List ℕ)
    → q.queue ≡ xs
    → ((take_from q xs).0 ++ (take_from q xs).1.queue ≡ q.queue)
      × ((take_from q xs).1.sleeping_takes
            + (take_from q xs).1.woken_takes
            + length (take_from q xs).0
          ≡ suc (q.sleeping_takes + q.woken_takes))
unfolding take_from
take_from-keeps q [] e = (refl, omega arith)
take_from-keeps q (x ∷ xs) e = elim (Bool-cases (q.max_queue_size == 0)) [
  | inl free ↦ rw free (sym e, omega arith)
  | inr bound ↦
      let (a, b, c) = notify_put-same (record q { queue = xs }) q.sleeping_puts in
      rw bound (ap (◌∷◌ x) a ∙ sym e, omega (arith, b, c))
]

calls-Keeps :
    (p p0 : ThreadPool) (r : List ℕ × BlockingQueue)
    → r.0 ++ r.1.queue ≡ p.queue.queue
    → p0.running ≡ p.running
    → p0.idle + r.1.sleeping_takes + r.1.woken_takes + length r.0
      ≡ p.idle + p.queue.sleeping_takes + p.queue.woken_takes
    → Keeps p [] (calls p0 r)
calls-Keeps p p0 r o e h = record {
  order = o ∙ sym (append-nil p.queue.queue);
  threads = omega (arith, length-append p0.running r.0, ap length e);
}

resume_put-Keeps :
    (p : ThreadPool) (xs : List ℕ)
    → p.queue.woken_puts ≡ xs
    → Each
        (Keeps p (resumed p.queue xs))
        (resume_put p.queue xs >>= λ r. some ([], record p { queue = r.1 }))
resume_put-Keeps p [] e = tt
resume_put-Keeps p (x ∷ xs) e = record {
  order = put-queue (record p.queue { woken_puts = xs }) x;
  threads = omega (arith, put-threads (record p.queue { woken_puts = xs }) x);
}

enters-Keeps : (p : ThreadPool) (n : ℕ) → p.idle ≡ n → Each (Keeps p []) (enters p n)
unfolding Defs.take
enters-Keeps p zero e = tt
enters-Keeps p (suc n) e =
    let (o, t) = take_from-keeps p.queue p.queue.queue refl in
    calls-Keeps p (record p { idle = n }) (take_from p.queue p.queue.queue) o refl
      (omega (arith, t))

resume_take-Keeps :
    (p : ThreadPool) (n : ℕ)
    → p.queue.woken_takes ≡ n
    → Each (Keeps p []) (resume_take p.queue n >>= λ r. some (calls p r))
unfolding Defs.take
resume_take-Keeps p zero e = tt
resume_take-Keeps p (suc n) e =
    let q = record p.queue { woken_takes = n } in
    let (o, t) = take_from-keeps q q.queue refl in
    calls-Keeps p p (take_from q q.queue) o refl (omega (arith, t))

lt_of_ltb : (a b : ℕ) → ltb a b ≡ true → a < b
lt_of_ltb a b h = ground arith

step-Keeps : (p : ThreadPool) (a : Action) → Each (Keeps p (entered p a)) (step p a)
unfolding step
step-Keeps p (puts x) = record {
  order = put-queue p.queue x;
  threads = omega (arith, put-threads p.queue x);
}
step-Keeps p resumes_put = resume_put-Keeps p p.queue.woken_puts refl
step-Keeps p takes = enters-Keeps p p.idle refl
step-Keeps p resumes_take = resume_take-Keeps p p.queue.woken_takes refl
step-Keeps p (returns i) = elim (Bool-cases (ltb i (length p.running))) [
  | inl lt ↦ rw lt (record {
    order = sym (append-nil p.queue.queue);
    threads = omega (
      arith,
      lt_of_ltb i (length p.running) lt,
      length-append (take i p.running) (drop (suc i) p.running),
      length-take i p.running,
      length-drop (suc i) p.running,
    );
  })
  | inr ge ↦ rw ge tt
]

-- The tasks that come into the queue in a sequence of actions, in order.
abbrev pub entered_then : (ThreadPool → List ℕ) → Option (List ℕ × ThreadPool) → List ℕ
entered_then f none = []
entered_then f (some r) = f r.1

unfoldable pub entered_run : ThreadPool → List Action → List ℕ
unfolding step
entered_run p [] = []
entered_run p (a ∷ rest) = entered p a ++ entered_then (λ p'. entered_run p' rest) (step p a)

Keeps-trans :
    (p : ThreadPool) (new more : List ℕ) (r s : List ℕ × ThreadPool)
    → Keeps p new r
    → Keeps r.1 more s
    → Keeps p (new ++ more) (r.0 ++ s.0, s.1)
Keeps-trans p new more r s h k = record {
  order =
      append_assoc r.0 s.0 s.1.queue.queue
      ∙ ap (λ (z : List ℕ). r.0 ++ z) k.order
      ∙ sym (append_assoc r.0 r.1.queue.queue more)
      ∙ ap (λ (z : List ℕ). z ++ more) h.order
      ∙ append_assoc p.queue.queue new more;
  threads = k.threads ∙ h.threads;
}

then-Keeps :
    (p : ThreadPool) (a : Action) (rest : List Action) (o : Option (List ℕ × ThreadPool))
    → ((q : ThreadPool) → Each (Keeps q (entered_run q rest)) (run q rest))
    → Each (Keeps p (entered p a)) o
    → Each
        (Keeps p (entered p a ++ entered_then (λ p'. entered_run p' rest) o))
        (o >>= λ r. run r.1 rest >>= λ s. some (r.0 ++ s.0, s.1))
then-Keeps p a rest none f h = tt
then-Keeps p a rest (some r) f h =
    Each-bind (Keeps r.1 (entered_run r.1 rest)) (Keeps p (entered p a ++ entered_run r.1 rest))
      (run r.1 rest) (λ s. some (r.0 ++ s.0, s.1))
      (λ s k. Keeps-trans p (entered p a) (entered_run r.1 rest) r s h k) (f r.1)

-- Whatever the threads do: the tasks called, in the order of the calls, and then those in the queue
-- are those that were in the queue and then those that came in, in order. The threads of the pool
-- stay as many as they were: idle, waiting in `take` or calling a task.
pub run-Keeps :
    (p : ThreadPool) (actions : List Action)
    → Each (Keeps p (entered_run p actions)) (run p actions)
unfolding run entered_run
run-Keeps p [] = record { order = sym (append-nil p.queue.queue); threads = refl }
run-Keeps p (a ∷ rest) = then-Keeps p a rest (step p a) (λ q. run-Keeps q rest) (step-Keeps p a)
