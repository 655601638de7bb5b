-- ===== src/Timer/Undone.antt =====
-- A timer that is added and cancelled.
use kknet.Prelude.{
  ℕ, suc, ◌≡◌, refl, sym, ap, ◌∙◌, inl, inr, Bool, true, false, Bool-cases, none, some, List, [],
  ◌∷◌, ◌++◌, ◌==◌, if◌then◌else◌, eqb→eq,
}
use kknet.Timer.Queue.{
  Interval, Timer, Entry, TimerQueue, put, less, same, contains, insert_entry, erase_entry, insert,
  is_earlier, add_timer_in_loop, cancel_in_loop,
}
use kknet.Timer.Members.{same_refl}
use kknet.Timer.Wellformed.{WellFormed, put-here}
use kknet.Timer.Requests.{
  adds, cancels, Requests, perform, run_in_loop, run_tasks, start_timer, timer_id, add_timer,
  cancel,
}

contains-insert_entry : (e : Entry) (xs : List Entry) → contains e (insert_entry e xs) ≡ true
unfolding contains insert_entry
contains-insert_entry e [] = rw (same_refl e) refl
contains-insert_entry e (x ∷ xs) = elim (Bool-cases (less e x)) [
  | inl l ↦ rw (l, same_refl e) refl
  | inr l ↦ elim (Bool-cases (same e x)) [
    | inl s ↦ rw (l, s) (rw s refl)
    | inr s ↦ rw (l, s) (rw s (contains-insert_entry e xs))
  ]
]

erase_entry-insert_entry :
    (e : Entry) (xs : List Entry) → contains e xs ≡ false → erase_entry e (insert_entry e xs) ≡ xs
unfolding contains insert_entry erase_entry
erase_entry-insert_entry e [] h = rw (same_refl e) refl
erase_entry-insert_entry e (x ∷ xs) h = elim (Bool-cases (same e x)) [
  | inl s ↦ absurd (cc (rw s at h))
  | inr s ↦ elim (Bool-cases (less e x)) [
    | inl l ↦ rw (l, same_refl e) refl
    | inr l ↦ rw (l, s) (rw s (ap (◌∷◌ x) (erase_entry-insert_entry e xs (rw s at h))))
  ]
]

module _ (q : TimerQueue) (w : WellFormed q []) (a : ℕ) (free : q.store a ≡ none) where
  no_entry : (t : ℕ) → contains (t, a) q.timers ≡ false
  no_entry t = elim (Bool-cases (contains (t, a) q.timers)) [
    | inl i ↦ let e = w.timed (t, a) i in absurd (cc (free, e.stored))
    | inr o ↦ o
  ]

  no_active : (n : ℕ) → contains (a, n) q.active ≡ false
  no_active n = elim (Bool-cases (contains (a, n) q.active)) [
    | inl i ↦ let e = w.numbered (a, n) i in absurd (cc (free, e.stored))
    | inr o ↦ o
  ]

-- The queue with the timer, and after it has been deleted.
module _ (q : TimerQueue) (a : ℕ) (t : Timer) where
  unfoldable inserted : TimerQueue
  inserted = record q {
    store = put a (some t) q.store;
    timers = insert_entry (t.time, a) q.timers;
    active = insert_entry (a, t.sequence) q.active;
    armed = if is_earlier t.time q.timers then some t.time else q.armed;
  }

  unfoldable deleted : TimerQueue
  deleted = record inserted {
    store = put a none (put a (some t) q.store);
    timers = q.timers;
    active = q.active;
  }

  add_timer_in_loop-inserted :
      add_timer_in_loop (record q { store = put a (some t) q.store }) a ≡ some inserted
  unfolding add_timer_in_loop insert inserted
  add_timer_in_loop-inserted = elim (Bool-cases (is_earlier t.time q.timers)) [
    | inl e ↦ rw (put-here q.store a (some t), e) refl
    | inr e ↦ rw (put-here q.store a (some t), e) refl
  ]

  cancel_in_loop-deleted :
      contains (t.time, a) q.timers ≡ false
      → contains (a, t.sequence) q.active ≡ false
      → cancel_in_loop inserted (a, t.sequence) ≡ some deleted
  unfolding cancel_in_loop inserted deleted
  cancel_in_loop-deleted h k =
      rw
        (
          contains-insert_entry (a, t.sequence) q.active,
          put-here q.store a (some t),
          erase_entry-insert_entry (t.time, a) q.timers h,
          erase_entry-insert_entry (a, t.sequence) q.active k,
        )
        refl

-- Everything is as before, but the time that the descriptor is armed for.
pub record Undone (q q' : TimerQueue) : Type 0 where
  pub timers : q'.timers ≡ q.timers
  pub active : q'.active ≡ q.active
  pub calling : q'.calling ≡ q.calling
  pub canceling : q'.canceling ≡ q.canceling
  pub store : (b : ℕ) → q'.store b ≡ q.store b

deleted-Undone : (q : TimerQueue) (a : ℕ) (t : Timer) → q.store a ≡ none → Undone q (deleted q a t)
unfolding deleted inserted
deleted-Undone q a t free = record {
  timers = refl;
  active = refl;
  calling = refl;
  canceling = refl;
  store = λ b. elim (Bool-cases (b == a)) [
    | inl e ↦ rw e (sym free ∙ ap q.store (sym (eqb→eq b a e)))
    | inr e ↦ rw e refl
  ];
}

-- A timer is added at an address that is not in use, and cancelled by the identifier that this
-- returns, in a queue in order and with no tasks about timers left: by the loop's thread, or by
-- another one, and then the loop runs the two tasks. Then the sets and the heap are as before.
pub add_timer-cancel :
    (in_loop : Bool) (r : Requests) (a callback when : ℕ) (interval : Interval)
    → WellFormed r.queue []
    → r.queue.store a ≡ none
    → r.tasks ≡ []
    → (id : ℕ × ℕ) × (r1 : Requests) × (r2 : Requests) × (r3 : Requests) × (add_timer in_loop r a
          callback when interval
        ≡ some (id, r1))
      × (cancel in_loop r1 id ≡ some r2)
      × (run_tasks r2 r2.tasks ≡ some r3)
      × Undone r.queue r3.queue
unfolding add_timer start_timer timer_id cancel run_in_loop run_tasks perform inserted
add_timer-cancel true r a callback when interval w free idle =
    let t : Timer = record {
      callback = callback;
      time = when;
      interval = interval;
      sequence = suc r.num;
    } in
    let in_order =
      cancel_in_loop-deleted r.queue a t (no_entry r.queue w a free when)
        (no_active r.queue w a free (suc r.num)) in
    let r2 : Requests = record r { queue = deleted r.queue a t; num = suc r.num } in
    (
      (a, suc r.num),
      record r { queue = inserted r.queue a t; num = suc r.num },
      r2,
      r2,
      rw (add_timer_in_loop-inserted r.queue a t, put-here r.queue.store a (some t)) refl,
      rw in_order refl,
      rw idle refl,
      deleted-Undone r.queue a t free,
    )
add_timer-cancel false r a callback when interval w free idle =
    let t : Timer = record {
      callback = callback;
      time = when;
      interval = interval;
      sequence = suc r.num;
    } in
    let in_order =
      cancel_in_loop-deleted r.queue a t (no_entry r.queue w a free when)
        (no_active r.queue w a free (suc r.num)) in
    let q : TimerQueue = record r.queue { store = put a (some t) r.queue.store } in
    (
      (a, suc r.num),
      record { queue = q; tasks = r.tasks ++ (adds a ∷ []); num = suc r.num },
      record {
        queue = q;
        tasks = (r.tasks ++ (adds a ∷ [])) ++ (cancels (a, suc r.num) ∷ []);
        num = suc r.num;
      },
      record { queue = deleted r.queue a t; tasks = []; num = suc r.num },
      rw (put-here r.queue.store a (some t)) refl,
      refl,
      rw (idle, add_timer_in_loop-inserted r.queue a t, in_order) refl,
      deleted-Undone r.queue a t free,
    )
