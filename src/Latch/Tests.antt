-- ===== src/Latch/Tests.antt =====
-- A latch for two calls of `countDown` with a thread that waits.
use kknet.Prelude.{◌≡◌, refl, some, List, [], ◌∷◌}
use kknet.Latch.Defs.{
  pos, new, wait, count_down, resume, set_count, Action, waits, counts_down, resumes, sets, step,
  run,
}

abbrev actions : List Action
actions = waits ∷ counts_down ∷ waits ∷ counts_down ∷ resumes ∷ resumes ∷ sets (pos 1) ∷ waits ∷ []

-- Both calls of `wait` return after the second `countDown`, and the third one sleeps.
both_return :
    run (new (pos 2)) actions ≡ some (2, record { count = pos 1; sleeping = 1; woken = 0 })
unfolding run new step wait count_down resume set_count
both_return = refl

-- `setCount(0)` lets no thread go.
sleeps_on :
    run (new (pos 1)) (waits ∷ sets (pos 0) ∷ [])
    ≡ some (0, record { count = pos 0; sleeping = 1; woken = 0 })
unfolding run new step wait set_count
sleeps_on = refl
