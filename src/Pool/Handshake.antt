-- ===== src/Pool/Handshake.antt =====
-- The loops that the threads of an EventloopPool hand over.
use kknet.Prelude.{
  ℕ, zero, suc, ◌+◌, ◌-◌, ◌≤◌, ◌<◌, ◌≡◌, refl, sym, ap, ◌∙◌, ◌⊎◌, inl, inr, Option, some, List, [],
  ◌∷◌, ◌++◌, Each, Each-bind, arith, subst, map, ltb-true, ltb-false, le_or_lt,
}
use kknet.Latch.Defs.{pos, CountDownLatch, new, wait, count_down, resume, set_count}
use kknet.Pool.Defs.{start_from, start, set_thread_num}
use kknet.Pool.Defs
use kknet.Pool.Starting.{
  Starter, Started, Starting, init, start_step, thread_step, Actor, starter, thread, step, run,
}

abbrev pub LatchIs : CountDownLatch → ℕ → ℕ → ℕ → Type 0
LatchIs l n k w = l ≡ record { count = pos n; sleeping = k; woken = w }

module _ (made : ℕ → ℕ) (num first : ℕ) where
  -- The loops after `k` threads.
  unfoldable pub handed : ℕ → List (Option ℕ)
  unfolding start_from
  handed k = map some (start_from made 1 k (first ∷ []))

  abbrev pub Ready : Starting → ℕ → ℕ → ℕ → Type 0
  Ready s n k w = LatchIs s.latch n k w × (s.current_loop ≡ some (made s.i))

  -- What the latch and `currentLoop_` are, for each place of the two threads.
  abbrev pub Meets : Starter → Started → Starting → Type 0
  Meets Starter.tests Started.absent s = LatchIs s.latch 1 0 0
  Meets Starter.tests Started.looping s = LatchIs s.latch 1 0 0
  Meets Starter.tests _ s = ⊥
  Meets Starter.spins Started.absent s = ⊥
  Meets Starter.spins Started.created s = LatchIs s.latch 1 0 0
  Meets Starter.spins Started.running s = LatchIs s.latch 1 0 0
  Meets Starter.spins Started.stored s = Ready s 1 0 0
  Meets Starter.spins Started.looping s = Ready s 0 0 0
  Meets Starter.waits Started.absent s = ⊥
  Meets Starter.waits Started.created s = ⊥
  Meets Starter.waits Started.running s = LatchIs s.latch 1 0 0
  Meets Starter.waits Started.stored s = Ready s 1 0 0
  Meets Starter.waits Started.looping s = Ready s 0 0 0
  Meets Starter.sleeps Started.absent s = ⊥
  Meets Starter.sleeps Started.created s = ⊥
  Meets Starter.sleeps Started.running s = LatchIs s.latch 1 1 0
  Meets Starter.sleeps Started.stored s = Ready s 1 1 0
  Meets Starter.sleeps Started.looping s = Ready s 0 0 1
  Meets Starter.pushes Started.looping s = Ready s 0 0 0
  Meets Starter.pushes _ s = ⊥
  Meets Starter.resets Started.looping s = LatchIs s.latch 0 0 0
  Meets Starter.resets _ s = ⊥
  Meets Starter.finished Started.absent s = LatchIs s.latch 1 0 0
  Meets Starter.finished Started.looping s = LatchIs s.latch 1 0 0
  Meets Starter.finished _ s = ⊥

  -- How far the loop is.
  abbrev pub Reaches : Starter → Starting → ℕ → Type 0
  Reaches Starter.tests s k = (s.loops ≡ handed k) × (s.i ≤ num)
  Reaches Starter.resets s k = (s.loops ≡ handed (suc k)) × (s.i < num)
  Reaches Starter.finished s k = (s.loops ≡ handed k) × (s.i ≡ num)
  Reaches _ s k = (s.loops ≡ handed k) × (s.i < num)

  pub record Agrees (p : Starter) (c : Started) (s : Starting) : Type 0 where
    pub count : ℕ
    pub at : s.i ≡ suc count
    pub meets : Meets p c s
    pub reaches : Reaches p s count

  abbrev pub InStep : Starting → Type 0
  InStep s = Agrees s.starter s.thread s

  pub init-InStep : 0 < num → InStep (init first)
  unfolding init new start_from handed
  init-InStep h = record { count = 0; at = refl; meets = refl; reaches = (refl, omega arith) }

  thread_step-InStep :
      (s : Starting) (p : Starter) (c : Started)
      → s.starter ≡ p
      → Agrees p c s
      → Each InStep (thread_step made s c)
  unfolding thread_step count_down
  thread_step-InStep s p Started.absent e a = tt
  thread_step-InStep s p Started.looping e a = tt
  thread_step-InStep s Starter.spins Started.created e a =
      rw e (record { count = a.count; at = a.at; meets = a.meets; reaches = a.reaches })
  thread_step-InStep s Starter.spins Started.running e a =
      rw e (record { count = a.count; at = a.at; meets = (a.meets, refl); reaches = a.reaches })
  thread_step-InStep s Starter.waits Started.running e a =
      rw e (record { count = a.count; at = a.at; meets = (a.meets, refl); reaches = a.reaches })
  thread_step-InStep s Starter.sleeps Started.running e a =
      rw e (record { count = a.count; at = a.at; meets = (a.meets, refl); reaches = a.reaches })
  thread_step-InStep s Starter.spins Started.stored e a =
      rw (e, a.meets.0)
        (record { count = a.count; at = a.at; meets = (refl, a.meets.1); reaches = a.reaches })
  thread_step-InStep s Starter.waits Started.stored e a =
      rw (e, a.meets.0)
        (record { count = a.count; at = a.at; meets = (refl, a.meets.1); reaches = a.reaches })
  thread_step-InStep s Starter.sleeps Started.stored e a =
      rw (e, a.meets.0)
        (record { count = a.count; at = a.at; meets = (refl, a.meets.1); reaches = a.reaches })
  thread_step-InStep s p c e a = absurd a.meets

  start_from-snoc :
      (i k : ℕ) (xs : List ℕ)
      → start_from made i (suc k) xs ≡ start_from made i k xs ++ (made (i + k) ∷ [])
  unfolding start_from
  start_from-snoc i zero xs = let e : i + 0 ≡ i = omega arith in rw e
  start_from-snoc i (suc k) xs =
      let e : i + suc k ≡ suc i + k = omega arith in
      rw e (start_from-snoc (suc i) k (xs ++ (made i ∷ [])))

  map-snoc : (xs : List ℕ) (x : ℕ) → map some (xs ++ (x ∷ [])) ≡ map some xs ++ (some x ∷ [])
  map-snoc [] x = refl
  map-snoc (y ∷ xs) x = ap (◌∷◌ (some y)) (map-snoc xs x)

  handed-suc : (k : ℕ) → handed (suc k) ≡ handed k ++ (some (made (suc k)) ∷ [])
  unfolding handed
  handed-suc k =
      let e : 1 + k ≡ suc k = omega arith in
      rw (start_from-snoc 1 k (first ∷ []), e)
        (map-snoc (start_from made 1 k (first ∷ [])) (made (suc k)))

  tests-InStep :
      (s : Starting) (c : Started)
      → s.thread ≡ c
      → (k : ℕ) → s.i ≡ suc k
      → LatchIs s.latch 1 0 0
      → (s.loops ≡ handed k) × (s.i ≤ num)
      → (c ≡ Started.absent) ⊎ (c ≡ Started.looping)
      → Each InStep (start_step num s Starter.tests)
  unfolding start_step
  tests-InStep s c e k at l r h = elim (le_or_lt num s.i) [
    | inr lt ↦
        rw (ltb-true s.i num lt) (record { count = k; at = at; meets = l; reaches = (r.0, lt) })
    | inl le ↦
        rw (ltb-false s.i num le, e)
          (elim h [
            | inl z ↦ rw z (record { count = k; at = at; meets = l; reaches = (r.0, omega arith) })
            | inr z ↦ rw z (record { count = k; at = at; meets = l; reaches = (r.0, omega arith) })
          ])
  ]

  start_step-InStep :
      (s : Starting) (p : Starter) (c : Started)
      → s.thread ≡ c
      → Agrees p c s
      → Each InStep (start_step num s p)
  unfolding start_step wait resume set_count
  start_step-InStep s Starter.tests Started.absent e a =
      tests-InStep s Started.absent e a.count a.at a.meets a.reaches (inl refl)
  start_step-InStep s Starter.tests Started.looping e a =
      tests-InStep s Started.looping e a.count a.at a.meets a.reaches (inr refl)
  start_step-InStep s Starter.spins Started.created e a = rw e tt
  start_step-InStep s Starter.spins Started.running e a =
      rw e (record { count = a.count; at = a.at; meets = a.meets; reaches = a.reaches })
  start_step-InStep s Starter.spins Started.stored e a =
      rw e (record { count = a.count; at = a.at; meets = a.meets; reaches = a.reaches })
  start_step-InStep s Starter.spins Started.looping e a =
      rw e (record { count = a.count; at = a.at; meets = a.meets; reaches = a.reaches })
  start_step-InStep s Starter.waits Started.running e a =
      rw (e, a.meets) (record { count = a.count; at = a.at; meets = refl; reaches = a.reaches })
  start_step-InStep s Starter.waits Started.stored e a =
      rw (e, a.meets.0)
        (record { count = a.count; at = a.at; meets = (refl, a.meets.1); reaches = a.reaches })
  start_step-InStep s Starter.waits Started.looping e a =
      rw (e, a.meets.0)
        (record { count = a.count; at = a.at; meets = (refl, a.meets.1); reaches = a.reaches })
  start_step-InStep s Starter.sleeps Started.running e a = rw a.meets tt
  start_step-InStep s Starter.sleeps Started.stored e a = rw a.meets.0 tt
  start_step-InStep s Starter.sleeps Started.looping e a =
      rw (e, a.meets.0)
        (record { count = a.count; at = a.at; meets = (refl, a.meets.1); reaches = a.reaches })
  start_step-InStep s Starter.pushes Started.looping e a = rw e (record {
    count = a.count;
    at = a.at;
    meets = a.meets.0;
    reaches = (rw (a.reaches.0, a.meets.1, a.at) (sym (handed-suc a.count)), a.reaches.1);
  })
  start_step-InStep s Starter.resets Started.looping e a =
      rw (e, a.meets)
        (record {
          count = suc a.count;
          at = ap suc a.at;
          meets = refl;
          reaches = (a.reaches.0, a.reaches.1);
        })
  start_step-InStep s Starter.finished c e a = tt
  start_step-InStep s p c e a = absurd a.meets

  step-InStep : (s : Starting) (a : Actor) → InStep s → Each InStep (step made num s a)
  unfolding step
  step-InStep s starter h = start_step-InStep s s.starter s.thread refl h
  step-InStep s thread h = thread_step-InStep s s.starter s.thread refl h

  pub run-InStep :
      (s : Starting) (actors : List Actor) → InStep s → Each InStep (run made num s actors)
  unfolding run
  run-InStep s [] h = h
  run-InStep s (a ∷ rest) h =
      Each-bind InStep InStep (step made num s a) (λ s'. run made num s' rest)
        (λ s' k. run-InStep s' rest k) (step-InStep s a h)

  finished-handed :
      (s : Starting) → InStep s → s.starter ≡ Starter.finished → s.loops ≡ handed (num - 1)
  finished-handed s h e =
      let a : Agrees Starter.finished s.thread s = subst (λ p. Agrees p s.thread s) e h in
      let k : a.count ≡ num - 1 = omega (arith, a.at, a.reaches.1) in a.reaches.0 ∙ ap handed k

  -- Whatever the order of the steps of `start` and of the threads it starts: when `start` has ended for
  -- at least one loop, the pool has the loop that it was made with and then the loops of the threads,
  -- in order and none of them null, as `start` without threads gives them.
  pub run-start :
      (actors : List Actor) (s : Starting)
      → 0 < num
      → run made num (init first) actors ≡ some s
      → s.starter ≡ Starter.finished
      → s.loops ≡ map some (start made (set_thread_num (Defs.new first) num)).loops
  unfolding start set_thread_num Defs.new handed
  run-start actors s h e f =
      finished-handed s (subst (Each InStep) e (run-InStep (init first) actors (init-InStep h))) f
