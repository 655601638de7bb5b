-- ===== src/Latch/Defs.antt =====
-- A CountDownLatch with its waiting threads. A thread holds the mutex from the lock, or from the
-- return of `wait` of the condition, to the next `wait` of it or the unlock: that is one step.
use kknet.Prelude.{
  ℕ, zero, suc, ◌+◌, Bool, true, false, Option, none, some, List, [], ◌∷◌, if◌then◌else◌, ◌>>=◌,
}

-- The `int` of the count, which `countDown` can take below 0.
pub data ℤ : Type 0 where
  pos negsuc : ℕ → ℤ

abbrev pub pred : ℤ → ℤ
pred (pos zero) = negsuc zero
pred (pos (suc n)) = pos n
pred (negsuc n) = negsuc (suc n)

abbrev pub is_positive : ℤ → Bool
is_positive (pos zero) = false
is_positive (pos (suc n)) = true
is_positive (negsuc n) = false

abbrev pub is_zero : ℤ → Bool
is_zero (pos zero) = true
is_zero (pos (suc n)) = false
is_zero (negsuc n) = false

-- `sleeping` threads are in `cond_.wait()`, and `woken` have been notified there and have not gone
-- on.
pub record CountDownLatch : Type 0 where
  pub count : ℤ
  pub sleeping : ℕ
  pub woken : ℕ

unfoldable pub new : ℤ → CountDownLatch
new count = record { count = count; sleeping = 0; woken = 0 }

-- `wait` from the test of the count on: whether it returns.
unfoldable pub wait : CountDownLatch → Bool × CountDownLatch
wait l = if is_positive l.count then (false, record l { sleeping = suc l.sleeping }) else (true, l)

abbrev pub notify_all : CountDownLatch → CountDownLatch
notify_all l = record l { sleeping = 0; woken = l.woken + l.sleeping }

unfoldable pub count_down : CountDownLatch → CountDownLatch
count_down l =
    let l' = record l { count = pred l.count } in if is_zero l'.count then notify_all l' else l'

-- A thread that has been notified tests again, if there is one.
abbrev pub resume_from : CountDownLatch → ℕ → Option (Bool × CountDownLatch)
resume_from l zero = none
resume_from l (suc n) = some (wait (record l { woken = n }))

unfoldable pub resume : CountDownLatch → Option (Bool × CountDownLatch)
resume l = resume_from l l.woken

-- `setCount` does not lock and notifies nobody. It has no `return`.
unfoldable pub set_count : CountDownLatch → ℤ → CountDownLatch
set_count l n = record l { count = n }

pub data Action : Type 0 where
  waits counts_down resumes : Action
  sets : ℤ → Action

-- The latch after an action, if it can happen, and how many calls of `wait` it ends.
abbrev pub returned : Bool × CountDownLatch → ℕ × CountDownLatch
returned (true, l) = (1, l)
returned (false, l) = (0, l)

unfoldable pub step : CountDownLatch → Action → Option (ℕ × CountDownLatch)
step l waits = some (returned (wait l))
step l counts_down = some (0, count_down l)
step l resumes = resume l >>= λ r. some (returned r)
step l (sets n) = some (0, set_count l n)

unfoldable pub run : CountDownLatch → List Action → Option (ℕ × CountDownLatch)
run l [] = some (0, l)
run l (a ∷ rest) = step l a >>= λ r. run r.1 rest >>= λ s. some (r.0 + s.0, s.1)
