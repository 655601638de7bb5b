-- ===== src/Pool/Progress.antt =====
-- The steps that `start` of an EventloopPool has left.
use kknet.Prelude.{
  ℕ, ◌+◌, ◌-◌, ◌*◌, ◌<◌, ◌≡◌, refl, ◌⊎◌, inl, inr, Bool, true, false, Option, none, some, Each,
  arith, ltb-true, ltb-false, le_or_lt,
}
use kknet.Latch.Defs.{wait, resume, set_count}
use kknet.Pool.Starting.{
  Starter, Started, Starting, start_step, thread_step, Actor, starter, thread, step,
}
use kknet.Pool.Handshake.{Agrees, InStep}

abbrev has : Option Starting → Bool
has none = false
has (some s) = true

-- A bound for the steps that are left.
abbrev starter_weight : Starter → ℕ
starter_weight Starter.tests = 11
starter_weight Starter.spins = 6
starter_weight Starter.waits = 5
starter_weight Starter.sleeps = 4
starter_weight Starter.pushes = 3
starter_weight Starter.resets = 2
starter_weight Starter.finished = 0

abbrev thread_weight : Started → ℕ
thread_weight Started.absent = 0
thread_weight Started.created = 3
thread_weight Started.running = 2
thread_weight Started.stored = 1
thread_weight Started.looping = 0

unfoldable pub weight : ℕ → Starting → ℕ
weight num s = 16 * (num - s.i) + starter_weight s.starter + thread_weight s.thread

module _ (made : ℕ → ℕ) (num first : ℕ) where
  abbrev Shrinks : Starting → Starting → Type 0
  Shrinks s s' = weight num s' < weight num s

  thread_step-Shrinks :
      (s : Starting) (c : Started) → s.thread ≡ c → Each (Shrinks s) (thread_step made s c)
  unfolding thread_step weight
  thread_step-Shrinks s Started.absent e = tt
  thread_step-Shrinks s Started.created e = rw e (omega arith)
  thread_step-Shrinks s Started.running e = rw e (omega arith)
  thread_step-Shrinks s Started.stored e = rw e (omega arith)
  thread_step-Shrinks s Started.looping e = tt

  start_step-Shrinks :
      (s : Starting) (p : Starter) (c : Started)
      → s.starter ≡ p
      → s.thread ≡ c
      → Agrees made num first p c s
      → Each (Shrinks s) (start_step num s p)
  unfolding start_step wait resume set_count weight
  start_step-Shrinks s Starter.tests c e h a = elim (le_or_lt num s.i) [
    | inr lt ↦ rw (e, ltb-true s.i num lt) (omega arith)
    | inl le ↦ rw (e, ltb-false s.i num le) (omega arith)
  ]
  start_step-Shrinks s Starter.spins Started.created e h a = rw h tt
  start_step-Shrinks s Starter.spins Started.running e h a = rw (e, h) (omega arith)
  start_step-Shrinks s Starter.spins Started.stored e h a = rw (e, h) (omega arith)
  start_step-Shrinks s Starter.spins Started.looping e h a = rw (e, h) (omega arith)
  start_step-Shrinks s Starter.waits Started.running e h a = rw (e, a.meets) (omega arith)
  start_step-Shrinks s Starter.waits Started.stored e h a = rw (e, a.meets.0) (omega arith)
  start_step-Shrinks s Starter.waits Started.looping e h a = rw (e, a.meets.0) (omega arith)
  start_step-Shrinks s Starter.sleeps Started.running e h a = rw a.meets tt
  start_step-Shrinks s Starter.sleeps Started.stored e h a = rw a.meets.0 tt
  start_step-Shrinks s Starter.sleeps Started.looping e h a = rw (e, a.meets.0) (omega arith)
  start_step-Shrinks s Starter.pushes c e h a = rw e (omega arith)
  start_step-Shrinks s Starter.resets Started.looping e h a = rw e (omega (arith, a.reaches.1))
  start_step-Shrinks s Starter.finished c e h a = tt
  start_step-Shrinks s p c e h a = absurd a.meets

  step-Shrinks :
      (s : Starting) (a : Actor) → InStep made num first s → Each (Shrinks s) (step made num s a)
  unfolding step
  step-Shrinks s starter h = start_step-Shrinks s s.starter s.thread refl refl h
  step-Shrinks s thread h = thread_step-Shrinks s s.thread refl

  abbrev pub CanGo : Starting → Type 0
  CanGo s = (a : Actor) × (s' : Starting) × (step made num s a ≡ some s')

  there : (o : Option Starting) → has o ≡ true → (s' : Starting) × (o ≡ some s')
  there none h = absurd (ground arith)
  there (some s) h = (s, refl)

  goes : (s : Starting) (a : Actor) → has (step made num s a) ≡ true → CanGo s
  goes s a h = let (s', e) = there (step made num s a) h in (a, s', e)

  can_go :
      (s : Starting) (p : Starter) (c : Started)
      → s.starter ≡ p
      → s.thread ≡ c
      → Agrees made num first p c s
      → (p ≡ Starter.finished) ⊎ CanGo s
  unfolding step start_step thread_step resume
  can_go s Starter.tests c e h a = inr (goes s starter (rw e refl))
  can_go s Starter.spins Started.created e h a = inr (goes s thread (rw h refl))
  can_go s Starter.spins Started.running e h a = inr (goes s starter (rw (e, h) refl))
  can_go s Starter.spins Started.stored e h a = inr (goes s starter (rw (e, h) refl))
  can_go s Starter.spins Started.looping e h a = inr (goes s starter (rw (e, h) refl))
  can_go s Starter.waits c e h a = inr (goes s starter (rw e refl))
  can_go s Starter.sleeps Started.running e h a = inr (goes s thread (rw h refl))
  can_go s Starter.sleeps Started.stored e h a = inr (goes s thread (rw h refl))
  can_go s Starter.sleeps Started.looping e h a = inr (goes s starter (rw (e, a.meets.0) refl))
  can_go s Starter.pushes c e h a = inr (goes s starter (rw e refl))
  can_go s Starter.resets c e h a = inr (goes s starter (rw e refl))
  can_go s Starter.finished c e h a = inl refl
  can_go s p c e h a = absurd a.meets

  -- From every state that `start` can reach there is a bound for the steps that are left, which each
  -- step of each thread lowers, and until `start` has ended one of the two threads can go on: it does
  -- not wait for ever.
  pub start-ends :
      (s : Starting)
      → InStep made num first s
      → ((a : Actor) → Each (Shrinks s) (step made num s a))
        × ((s.starter ≡ Starter.finished) ⊎ CanGo s)
  start-ends s h = (λ a. step-Shrinks s a h, can_go s s.starter s.thread refl refl h)
