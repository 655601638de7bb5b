-- ===== src/Latch/Open.antt =====
-- The threads that sleep at a CountDownLatch, against its count.
use kknet.Prelude.{
  ℕ, zero, suc, ◌+◌, ◌≡◌, refl, ◌⊎◌, inl, inr, Bool, Each-bind, true, false, Bool-cases, Option,
  none, some, List, [], ◌∷◌, All, Each, ◌>>=◌, arith,
}
use kknet.Latch.Defs.{
  ℤ, pos, negsuc, pred, is_positive, is_zero, CountDownLatch, wait, count_down, resume_from, resume,
  set_count, Action, waits, counts_down, resumes, sets, step, run, returned,
}

-- When a thread sleeps, the count is positive.
abbrev pub IsAwaited : CountDownLatch → Type 0
IsAwaited l = (l.sleeping ≡ 0) ⊎ (is_positive l.count ≡ true)

-- The count is set to a positive number only.
abbrev pub Sets : Action → Type 0
Sets (sets n) = is_positive n ≡ true
Sets waits = Unit
Sets counts_down = Unit
Sets resumes = Unit

wait-IsAwaited : (l : CountDownLatch) → IsAwaited l → IsAwaited (wait l).1
unfolding wait
wait-IsAwaited l h = elim (Bool-cases (is_positive l.count)) [
  | inl more ↦ rw more (inr more)
  | inr open_ ↦ rw open_ h
]

pred_open : (n : ℤ) → is_positive n ≡ true → is_zero (pred n) ≡ false → is_positive (pred n) ≡ true
pred_open (pos zero) h k = absurd (ground arith)
pred_open (pos (suc zero)) h k = absurd (ground arith)
pred_open (pos (suc (suc n))) h k = refl
pred_open (negsuc n) h k = absurd (ground arith)

count_down-IsAwaited : (l : CountDownLatch) → IsAwaited l → IsAwaited (count_down l)
unfolding count_down
count_down-IsAwaited l h = elim (Bool-cases (is_zero (pred l.count))) [
  | inl z ↦ rw z (inl refl)
  | inr nz ↦ rw nz (elim h [ inl e ↦ inl e | inr p ↦ inr (pred_open l.count p nz) ])
]

resume_from-IsAwaited :
    (l : CountDownLatch) (n : ℕ) → IsAwaited l → Each (λ r. IsAwaited r.1) (resume_from l n)
resume_from-IsAwaited l zero h = tt
resume_from-IsAwaited l (suc n) h = wait-IsAwaited (record l { woken = n }) h

returned-IsAwaited : (r : Bool × CountDownLatch) → IsAwaited r.1 → IsAwaited (returned r).1
returned-IsAwaited (true, l) h = h
returned-IsAwaited (false, l) h = h

returned-Each :
    (o : Option (Bool × CountDownLatch))
    → Each (λ r. IsAwaited r.1) o
    → Each (λ r. IsAwaited r.1) (o >>= λ r. some (returned r))
returned-Each none h = tt
returned-Each (some r) h = returned-IsAwaited r h

step-IsAwaited :
    (l : CountDownLatch) (a : Action) → Sets a → IsAwaited l → Each (λ r. IsAwaited r.1) (step l a)
unfolding step resume set_count
step-IsAwaited l waits s h = returned-IsAwaited (wait l) (wait-IsAwaited l h)
step-IsAwaited l counts_down s h = count_down-IsAwaited l h
step-IsAwaited l resumes s h =
    returned-Each (resume_from l l.woken) (resume_from-IsAwaited l l.woken h)
step-IsAwaited l (sets n) s h = inr s

-- Whatever the threads do, as long as the count is only set to positive numbers: a thread sleeps at
-- the latch only while the count is positive, if that held at first.
pub run-IsAwaited :
    (l : CountDownLatch) (actions : List Action)
    → All Sets actions
    → IsAwaited l
    → Each (λ (r : ℕ × CountDownLatch). IsAwaited r.1) (run l actions)
unfolding run
run-IsAwaited l [] s h = h
run-IsAwaited l (a ∷ rest) s h =
    let Awaited : ℕ × CountDownLatch → Type 0 = λ r. IsAwaited r.1 in
    Each-bind Awaited Awaited (step l a) (λ r. run r.1 rest >>= λ s. some (r.0 + s.0, s.1))
      (λ r k.
        Each-bind Awaited Awaited (run r.1 rest) (λ s. some (r.0 + s.0, s.1)) (λ s m. m)
          (run-IsAwaited r.1 rest s.1 k))
      (step-IsAwaited l a s.0 h)
