-- ===== src/Blocking/Waiting.antt =====
-- The threads of a BlockingQueue that sleep, against its elements and the threads notified.
use kknet.Prelude.{
  Each, Each-bind, ℕ, zero, suc, ◌+◌, ◌≤◌, ◌<◌, ◌≡◌, refl, ap, ◌⊎◌, inl, inr, true, false, some,
  List, [], ◌∷◌, ◌++◌, length, ◌==◌, ◌>>=◌, arith, length-append, Bool-cases,
}
use kknet.Blocking.Defs.{
  BlockingQueue, notify_take, notify_put, is_full, put, take_from, take, Action, puts, takes,
  resumes_put, resumes_take, resume_put, resume_take, step, run,
}

-- Up to `k` threads that have been notified in `put` and `j` in `take` and no longer count: if
-- threads sleep in `take`, there are no more elements than threads that have been notified; if
-- threads sleep in `put`, there is a bound, and the elements and the threads that have been
-- notified reach it.
pub record IsServed (k j : ℕ) (q : BlockingQueue) : Type 0 where
  pub served : (q.sleeping_takes ≡ 0) ⊎ (length q.queue ≤ j + q.woken_takes)
  pub filled :
      (length q.sleeping_puts ≡ 0)
      ⊎ (q.max_queue_size ≤ k + length q.queue + length q.woken_puts) × (0 < q.max_queue_size)
  pub bounded : (q.max_queue_size ≡ 0) ⊎ (length q.queue ≤ q.max_queue_size)

is_full-true :
    (q : BlockingQueue)
    → is_full q ≡ true
    → (0 < q.max_queue_size) × (q.max_queue_size ≤ length q.queue)
is_full-true q h = (ground arith, ground arith)

is_full-false :
    (q : BlockingQueue)
    → is_full q ≡ false
    → (q.max_queue_size ≡ 0) ⊎ (length q.queue < q.max_queue_size)
is_full-false q h = grind arith

notify_take-IsServed :
    (q : BlockingQueue) (n : ℕ)
    → q.sleeping_takes ≡ n
    → IsServed 0 1 q
    → IsServed 0 0 (notify_take q n)
notify_take-IsServed q zero e h = record { served = inl e; filled = h.filled; bounded = h.bounded }
notify_take-IsServed q (suc n) e h = record {
  served = inr (grind (arith, h.served));
  filled = h.filled;
  bounded = h.bounded;
}

put-IsServed : (q : BlockingQueue) (x : ℕ) → IsServed 1 0 q → IsServed 0 0 (put q x)
unfolding put
put-IsServed q x h = elim (Bool-cases (is_full q)) [
  | inl full ↦
      let (pos, le) = is_full-true q full in
      rw full (record { served = h.served; filled = inr (omega arith, pos); bounded = h.bounded })
  | inr room ↦
      let one = length-append q.queue (x ∷ []) in
      rw room (
        notify_take-IsServed (record q { queue = q.queue ++ (x ∷ []) }) q.sleeping_takes refl
          (record {
            served = grind (arith, one, h.served);
            filled = grind (arith, one, h.filled);
            bounded = grind (arith, one, is_full-false q room);
          }))
]

notify_put-IsServed :
    (q : BlockingQueue) (xs : List ℕ)
    → q.sleeping_puts ≡ xs
    → IsServed 1 0 q
    → IsServed 0 0 (notify_put q xs)
notify_put-IsServed q [] e h = record {
  served = h.served;
  filled = inl (ap length e);
  bounded = h.bounded;
}
notify_put-IsServed q (x ∷ xs) e h = record {
  served = h.served;
  filled = grind (arith, length-append q.woken_puts (x ∷ []), h.filled, ap length e);
  bounded = h.bounded;
}

take_from-IsServed :
    (q : BlockingQueue) (xs : List ℕ)
    → q.queue ≡ xs
    → IsServed 0 1 q
    → IsServed 0 0 (take_from q xs).1
unfolding take_from
take_from-IsServed q [] e h = record {
  served = inr (omega (arith, ap length e));
  filled = h.filled;
  bounded = h.bounded;
}
take_from-IsServed q (x ∷ xs) e h =
    let less = ap length e in
    elim (Bool-cases (q.max_queue_size == 0)) [
      | inl free ↦ rw free (record {
        served = grind (arith, less, h.served);
        filled = grind (arith, less, h.filled);
        bounded = grind (arith, less, h.bounded);
      })
      | inr bound ↦ rw bound (
          notify_put-IsServed (record q { queue = xs }) q.sleeping_puts refl
            (record {
              served = grind (arith, less, h.served);
              filled = grind (arith, less, h.filled);
              bounded = grind (arith, less, h.bounded);
            }))
    ]

more-IsServed : (q : BlockingQueue) → IsServed 0 0 q → IsServed 1 0 q
more-IsServed q h = record {
  served = h.served;
  filled = grind (arith, h.filled);
  bounded = h.bounded;
}

later-IsServed : (q : BlockingQueue) → IsServed 0 0 q → IsServed 0 1 q
later-IsServed q h = record {
  served = grind (arith, h.served);
  filled = h.filled;
  bounded = h.bounded;
}

resume_put-IsServed :
    (q : BlockingQueue) (xs : List ℕ)
    → q.woken_puts ≡ xs
    → IsServed 0 0 q
    → Each (λ (r : List ℕ × BlockingQueue). IsServed 0 0 r.1) (resume_put q xs)
resume_put-IsServed q [] e h = tt
resume_put-IsServed q (x ∷ xs) e h =
    put-IsServed (record q { woken_puts = xs }) x
      (record {
        served = h.served;
        filled = grind (arith, h.filled, ap length e);
        bounded = h.bounded;
      })

resume_take-IsServed :
    (q : BlockingQueue) (n : ℕ)
    → q.woken_takes ≡ n
    → IsServed 0 0 q
    → Each (λ (r : List ℕ × BlockingQueue). IsServed 0 0 r.1) (resume_take q n)
unfolding take
resume_take-IsServed q zero e h = tt
resume_take-IsServed q (suc n) e h =
    take_from-IsServed (record q { woken_takes = n }) q.queue refl
      (record { served = grind (arith, h.served); filled = h.filled; bounded = h.bounded })

step-IsServed :
    (q : BlockingQueue) (a : Action)
    → IsServed 0 0 q
    → Each (λ (r : List ℕ × BlockingQueue). IsServed 0 0 r.1) (step q a)
unfolding step take
step-IsServed q (puts x) h = put-IsServed q x (more-IsServed q h)
step-IsServed q takes h = take_from-IsServed q q.queue refl (later-IsServed q h)
step-IsServed q resumes_put h = resume_put-IsServed q q.woken_puts refl h
step-IsServed q resumes_take h = resume_take-IsServed q q.woken_takes refl h

-- Whatever the threads do that put and take, while the bound is not changed, these hold if they held
-- at first: when a thread sleeps in `take` there
-- are no more elements than threads that have been notified there; when one sleeps in `put` the
-- elements and the threads that have been notified there reach the bound; and the elements never
-- exceed a bound.
pub run-IsServed :
    (q : BlockingQueue) (actions : List Action)
    → IsServed 0 0 q
    → Each (λ (r : List ℕ × BlockingQueue). IsServed 0 0 r.1) (run q actions)
unfolding run
run-IsServed q [] h = h
run-IsServed q (a ∷ rest) h =
    let Served : List ℕ × BlockingQueue → Type 0 = λ r. IsServed 0 0 r.1 in
    Each-bind Served Served (step q a) (λ r. run r.1 rest >>= λ s. some (r.0 ++ s.0, s.1))
      (λ r k.
        Each-bind Served Served (run r.1 rest) (λ s. some (r.0 ++ s.0, s.1)) (λ s m. m)
          (run-IsServed r.1 rest k))
      (step-IsServed q a h)
