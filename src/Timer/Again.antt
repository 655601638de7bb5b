-- ===== src/Timer/Again.antt =====
-- The timers that `reset` starts again or deletes, and the order of a TimerQueue.
use kknet.Prelude.{
  ℕ, ◌<◌, ◌≡◌, ◌≢◌, refl, ◌∙◌, inl, inr, true, Bool-cases, none, some, List, [], ◌∷◌, arith,
  eqb_refl,
}
use kknet.Timer.Queue.{
  Entry, Timer, TimerQueue, put, repeat, restart, insert_entry, insert, reset_each,
}
use kknet.Timer.Renewed.{goes_on}
use kknet.Timer.Members.{In-head, In-tail, All-In}
use kknet.Timer.Wellformed.{WellFormed, Timed-put, Numbered-put, put-other}
use kknet.Timer.Kept.{inserted-WellFormed}

-- The first timer that has expired is not looked at any more.
landed-WellFormed :
    (q : TimerQueue) (e : Entry) (xs : List Entry) → WellFormed q (e ∷ xs) → WellFormed q xs
landed-WellFormed q e xs w = record {
  rises = w.rises;
  active_rises = w.active_rises;
  timed = w.timed;
  numbered = w.numbered;
  live = λ x i. w.live x (In-tail x e xs i);
  small = λ x i. w.small x (In-tail x e xs i);
  aloft = λ x y i. w.aloft x y (In-tail x e xs i);
  dormant = λ x y i. w.dormant x y (In-tail x e xs i);
  distinct = w.distinct.1;
}

-- It is deleted.
freed-WellFormed :
    (q : TimerQueue) (t a : ℕ) (xs : List Entry)
    → WellFormed q ((t, a) ∷ xs)
    → WellFormed (record q { store = put a none q.store }) xs
freed-WellFormed q t a xs w =
    let here = In-head (t, a) xs in
    record {
      rises = w.rises;
      active_rises = w.active_rises;
      timed = λ x i. Timed-put q.store a none x (w.aloft (t, a) x here i) (w.timed x i);
      numbered = λ x i. Numbered-put q.store a none x (w.dormant (t, a) x here i) (w.numbered x i);
      live = λ x i.
          let (u, s) = w.live x (In-tail x (t, a) xs i) in
          (
            u,
            put-other q.store a none x.1 (All-In (λ (e : Entry). e.1 ≢ a) x xs w.distinct.0 i) ∙ s,
          );
      small = λ x i. w.small x (In-tail x (t, a) xs i);
      aloft = λ x y i. w.aloft x y (In-tail x (t, a) xs i);
      dormant = λ x y i. w.dormant x y (In-tail x (t, a) xs i);
      distinct = w.distinct.1;
    }

-- It is started again.
restarted : TimerQueue → ℕ → Timer → TimerQueue
restarted q a timer = record q {
  store = put a (some timer) q.store;
  timers = insert_entry (timer.time, a) q.timers;
  active = insert_entry (a, timer.sequence) q.active;
}

restarted-WellFormed :
    (q : TimerQueue) (t a : ℕ) (timer : Timer) (xs : List Entry)
    → WellFormed q ((t, a) ∷ xs)
    → 0 < timer.time
    → WellFormed (restarted q a timer) xs
unfolding restarted
restarted-WellFormed q t a timer xs w valid =
    let here = In-head (t, a) xs in
    inserted-WellFormed q
      (record q {
        store = put a (some timer) q.store;
        timers = insert_entry (timer.time, a) q.timers;
        active = insert_entry (a, timer.sequence) q.active;
      })
      a timer xs (landed-WellFormed q (t, a) xs w) (λ x i. w.aloft (t, a) x here i)
      (λ x i. w.dormant (t, a) x here i)
      (λ x i. All-In (λ (e : Entry). e.1 ≢ a) x xs w.distinct.0 i) valid (w.small (t, a) here) refl
      refl refl

restart_valid :
    (timer : Timer) (now : ℕ) → 0 < now → repeat timer ≡ true → 0 < (restart timer now).time
unfolding restart
restart_valid timer now n h = rw h (omega arith)

pub reset_each-WellFormed :
    (xs : List Entry) (now : ℕ) (q : TimerQueue)
    → 0 < now
    → WellFormed q xs
    → (q' : TimerQueue) × (reset_each xs now q ≡ some q') × WellFormed q' []
unfolding reset_each insert restarted
reset_each-WellFormed [] now q n w = (q, refl, w)
reset_each-WellFormed ((t, a) ∷ xs) now q n w =
    let (timer, s) = w.live (t, a) (In-head (t, a) xs) in
    elim (Bool-cases (goes_on q a timer)) [
      | inl on ↦
          let (q', e, w') = reset_each-WellFormed xs now (restarted q a (restart timer now)) n (
            restarted-WellFormed q t a (restart timer now) xs w
              (restart_valid timer now n (ground arith))) in
          (q', rw (s, on, eqb_refl a) e, w')
      | inr off ↦
          let (q', e, w') =
            reset_each-WellFormed xs now (record q { store = put a none q.store }) n
              (freed-WellFormed q t a xs w) in
          (q', rw (s, off) e, w')
    ]
