-- ===== src/Blocking/Progress.antt =====
-- The steps of the notified threads of a BlockingQueue.
use kknet.Prelude.{
  ℕ, zero, suc, ◌<◌, ◌≡◌, refl, ap, false, some, List, [], ◌∷◌, ◌++◌, length, arith,
}
use kknet.Blocking.Defs.{
  BlockingQueue, notify_take, is_full, put, take_from, take, resumes_put, resumes_take, resume_put,
  resume_take, step,
}
use kknet.Blocking.Waiting.{IsServed}

resumed_take :
    (q : BlockingQueue) (n x : ℕ) (xs : List ℕ)
    → q.queue ≡ x ∷ xs
    → 0 < n
    → (q' : BlockingQueue) × (resume_take q n ≡ some (x ∷ [], q'))
unfolding take take_from
resumed_take q zero x xs e h = absurd (omega arith)
resumed_take q (suc n) x xs e h = (
  (take_from (record q { woken_takes = n }) (x ∷ xs)).1,
  ap (λ (ys : List ℕ). some (take_from (record q { woken_takes = n }) ys)) e,
)

-- In a queue where the sleeping threads are served, when a thread sleeps in `take` and there is an
-- element, a notified thread can go on and takes the first one.
pub step-takes :
    (q : BlockingQueue) (x : ℕ) (xs : List ℕ)
    → IsServed 0 0 q
    → q.queue ≡ x ∷ xs
    → 0 < q.sleeping_takes
    → (q' : BlockingQueue) × (step q resumes_take ≡ some (x ∷ [], q'))
unfolding step
step-takes q x xs h e s = resumed_take q q.woken_takes x xs e (grind (arith, h.served, ap length e))

notify_take-queue : (q : BlockingQueue) (n : ℕ) → (notify_take q n).queue ≡ q.queue
notify_take-queue q zero = refl
notify_take-queue q (suc n) = refl

has_room : (q : BlockingQueue) → length q.queue < q.max_queue_size → is_full q ≡ false
has_room q lt = ground arith

put-queue : (q : BlockingQueue) (x : ℕ) → is_full q ≡ false → (put q x).queue ≡ q.queue ++ (x ∷ [])
unfolding put
put-queue q x room =
    rw room (notify_take-queue (record q { queue = q.queue ++ (x ∷ []) }) q.sleeping_takes)

resumed_put :
    (q : BlockingQueue) (xs : List ℕ)
    → 0 < length xs
    → length q.queue < q.max_queue_size
    → (x : ℕ) × (q' : BlockingQueue) × (resume_put q xs ≡ some ([], q'))
      × (q'.queue ≡ q.queue ++ (x ∷ []))
resumed_put q [] pos lt = absurd (omega arith)
resumed_put q (x ∷ xs) pos lt =
    let q' : BlockingQueue = record q { woken_puts = xs } in
    (x, put q' x, refl, put-queue q' x (has_room q' lt))

-- In a queue where the sleeping threads are served, when a thread sleeps in `put` and the queue is
-- not full, a notified thread can go on and puts its element at the end.
pub step-puts :
    (q : BlockingQueue)
    → IsServed 0 0 q
    → 0 < length q.sleeping_puts
    → length q.queue < q.max_queue_size
    → (x : ℕ) × (q' : BlockingQueue) × (step q resumes_put ≡ some ([], q'))
      × (q'.queue ≡ q.queue ++ (x ∷ []))
unfolding step
step-puts q h s lt = resumed_put q q.woken_puts (grind (arith, h.filled)) lt
