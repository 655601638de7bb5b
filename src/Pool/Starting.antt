-- ===== src/Pool/Starting.antt =====
-- `start` of an EventloopPool together with the threads that it starts: Thread::start, threadFunc,
-- poolFunc and the latch between them. A round of the loop that waits for the status is a step only
-- when it is the last one, and a thread returns from `wait` only when it has been notified.
use kknet.Prelude.{
  ℕ, suc, Bool, true, false, Option, none, some, List, [], ◌∷◌, ◌++◌, ltb, if◌then◌else◌, ◌>>=◌,
}
use kknet.Latch.Defs.{pos, CountDownLatch, new, wait, count_down, resume, set_count}

-- Where the thread that runs `start` is: at the test of the loop over `i`, in the loop of
-- Thread::start that waits for the status, before `latch_.wait()`, asleep in it, before the first
-- `push_back`, before `setCount`, and behind the loop.
pub data Starter : Type 0 where
  tests spins waits sleeps pushes resets finished : Starter

-- Where the newest thread is: not there, created, with the status kRunning, with `currentLoop_` set,
-- and in `loop.loop()`.
pub data Started : Type 0 where
  absent created running stored looping : Started

pub record Starting : Type 0 where
  pub starter : Starter
  pub thread : Started
  pub i : ℕ
  pub current_loop : Option ℕ
  pub latch : CountDownLatch
  pub loops : List (Option ℕ)

unfoldable pub init : ℕ → Starting
unfolding new
init loop = record {
  starter = Starter.tests;
  thread = Started.absent;
  i = 1;
  current_loop = none;
  latch = new (pos 1);
  loops = some loop ∷ [];
}

-- After the test of the count.
abbrev pub awaited : Starting → Bool × CountDownLatch → Starting
awaited s (true, l) = record s { starter = Starter.pushes; latch = l }
awaited s (false, l) = record s { starter = Starter.sleeps; latch = l }

-- The test of the status in Thread::start.
abbrev pub spin : Starting → Started → Option Starting
spin s Started.absent = none
spin s Started.created = none
spin s Started.running = some (record s { starter = Starter.waits })
spin s Started.stored = some (record s { starter = Starter.waits })
spin s Started.looping = some (record s { starter = Starter.waits })

-- A step of `start`, for `num` loops. The thread that it makes can be created.
unfoldable pub start_step : ℕ → Starting → Starter → Option Starting
unfolding wait resume set_count
start_step num s Starter.tests = some (
    if ltb s.i num
    then record s { starter = Starter.spins; thread = Started.created; current_loop = none }
    else record s { starter = Starter.finished })
start_step num s Starter.spins = spin s s.thread
start_step num s Starter.waits = some (awaited s (wait s.latch))
start_step num s Starter.sleeps = resume s.latch >>= λ r. some (awaited s r)
start_step num s Starter.pushes =
    some (record s { starter = Starter.resets; loops = s.loops ++ (s.current_loop ∷ []) })
start_step num s Starter.resets =
    some (record s { starter = Starter.tests; latch = set_count s.latch (pos 1); i = suc s.i })
start_step num s Starter.finished = none

-- A step of the newest thread, threadFunc and poolFunc. `made i` is the loop of the `i`-th thread.
unfoldable pub thread_step : (ℕ → ℕ) → Starting → Started → Option Starting
unfolding count_down
thread_step made s Started.absent = none
thread_step made s Started.created = some (record s { thread = Started.running })
thread_step made s Started.running =
    some (record s { thread = Started.stored; current_loop = some (made s.i) })
thread_step made s Started.stored =
    some (record s { thread = Started.looping; latch = count_down s.latch })
thread_step made s Started.looping = none

pub data Actor : Type 0 where
  starter thread : Actor

unfoldable pub step : (ℕ → ℕ) → ℕ → Starting → Actor → Option Starting
unfolding start_step thread_step
step made num s starter = start_step num s s.starter
step made num s thread = thread_step made s s.thread

unfoldable pub run : (ℕ → ℕ) → ℕ → Starting → List Actor → Option Starting
run made num s [] = some s
run made num s (a ∷ rest) = step made num s a >>= λ s'. run made num s' rest
