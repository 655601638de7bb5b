-- ===== src/Pool/StartTests.antt =====
-- Runs of `start` with its threads.
use kknet.Prelude.{ℕ, ◌+◌, ◌<◌, ◌≡◌, refl, ◌⊎◌, some, List, [], ◌∷◌, ◌++◌, map, Each, arith}
use kknet.Latch.Defs.{pos, new, wait, count_down, resume, set_count}
use kknet.Pool.Defs.{set_thread_num, start}
use kknet.Pool.Defs
use kknet.Pool.Starting.{
  Starter, Started, Starting, init, start_step, thread_step, Actor, starter, thread, step, run,
}
use kknet.Pool.Handshake.{init-InStep, run-start}
use kknet.Pool.Progress.{weight, start-ends}

-- Two loops are made by threads. The first thread is fast, and the second one lets `start` sleep.
abbrev made : ℕ → ℕ
made i = 100 + i

abbrev fast : List Actor
fast = starter ∷ thread ∷ thread ∷ thread ∷ starter ∷ starter ∷ starter ∷ starter ∷ []

abbrev slow : List Actor
slow =
    starter ∷ thread ∷ starter ∷ starter ∷ thread ∷ thread ∷ starter ∷ starter ∷ starter ∷ starter
    ∷ []

abbrev ended : Starting
ended = record {
  starter = Starter.finished;
  thread = Started.looping;
  i = 3;
  current_loop = some 102;
  latch = record { count = pos 1; sleeping = 0; woken = 0 };
  loops = some 7 ∷ some 101 ∷ some 102 ∷ [];
}

hands_over : run made 3 (init 7) (fast ++ slow) ≡ some ended
unfolding run init step start_step thread_step wait count_down resume set_count new
hands_over = refl

run-start_example : ended.loops ≡ map some (start made (set_thread_num (Defs.new 7) 3)).loops
run-start_example = run-start made 3 7 (fast ++ slow) ended (omega arith) hands_over refl

start-ends_example :
    ((a : Actor) → Each (λ s'. weight 3 s' < weight 3 (init 7)) (step made 3 (init 7) a))
    × (((init 7).starter ≡ Starter.finished)
        ⊎ ((a : Actor) × (s' : Starting) × (step made 3 (init 7) a ≡ some s')))
start-ends_example = start-ends made 3 7 (init 7) (init-InStep made 3 7 (omega arith))
