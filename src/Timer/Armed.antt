-- ===== src/Timer/Armed.antt =====
-- The time that the timer descriptor is armed for, against the timers.
use kknet.Prelude.{
  ℕ, ◌≤◌, ◌<◌, ◌≡◌, refl, ◌⊎◌, inl, inr, true, false, Bool-cases, Option, some, none, List, [], ◌∷◌,
  All, arith,
}
use kknet.Timer.Queue.{
  Entry, Timer, TimerQueue, put, is_earlier, insert_entry, erase_entry, contains, insert,
  add_timer_in_loop, cancel_in_loop, rearm,
}
use kknet.Timer.Sorted.{
  Rises, less-le, insert_entry-All, insert_entry-Rises, erase_entry-All, erase_entry-Rises,
  is_earlier-All,
}

-- The descriptor is set, for no later than `when`.
abbrev pub ArmedBy : Option ℕ → ℕ → Type 0
ArmedBy none when = ⊥
ArmedBy (some a) when = a ≤ when

-- No timer is due before the descriptor goes off, and `timers_` is in order.
pub record IsArmed (q : TimerQueue) : Type 0 where
  pub rises : Rises q.timers
  pub early : All (λ (e : Entry). ArmedBy q.armed e.0) q.timers

ArmedBy-mono : (o : Option ℕ) (m n : ℕ) → m ≤ n → ArmedBy o m → ArmedBy o n
ArmedBy-mono none m n h a = absurd a
ArmedBy-mono (some k) m n h a = omega arith

-- `addTimerInLoop`: the new timer does not come first, so it is behind one that is waited for.
not_first :
    (o : Option ℕ) (when : ℕ) (xs : List Entry)
    → is_earlier when xs ≡ false
    → All (λ (e : Entry). ArmedBy o e.0) xs
    → ArmedBy o when
not_first o when [] h a = cc
not_first o when ((t, b) ∷ xs) h a = ArmedBy-mono o t when (ground arith) a.0

insert_lem :
    (q : TimerQueue) (a : ℕ) (t : Timer)
    → q.store a ≡ some t
    → insert q a
      ≡ some (
        is_earlier t.time q.timers,
        record q {
          timers = insert_entry (t.time, a) q.timers;
          active = insert_entry (a, t.sequence) q.active;
        },
      )
unfolding insert
insert_lem q a t e = rw e

-- If the timers are in order and the descriptor is in time for all of them, then after
-- `addTimerInLoop` of a live timer it is in time for that one too, and the timer stands in both
-- sets.
pub add_timer_in_loop-IsArmed :
    (q : TimerQueue) (a : ℕ) (t : Timer)
    → IsArmed q
    → q.store a ≡ some t
    → (q' : TimerQueue) × (add_timer_in_loop q a ≡ some q')
      × (q'.timers ≡ insert_entry (t.time, a) q.timers)
      × (q'.active ≡ insert_entry (a, t.sequence) q.active)
      × (q'.store ≡ q.store)
      × IsArmed q'
unfolding add_timer_in_loop
add_timer_in_loop-IsArmed q a t v e = elim (Bool-cases (is_earlier t.time q.timers)) [
  | inl first ↦ (
    record q {
      timers = insert_entry (t.time, a) q.timers;
      active = insert_entry (a, t.sequence) q.active;
      armed = some t.time;
    },
    rw (insert_lem q a t e, e, first),
    refl,
    refl,
    refl,
    record {
      rises = insert_entry-Rises (t.time, a) q.timers v.rises;
      early =
          insert_entry-All (λ (e : Entry). t.time ≤ e.0) (t.time, a) q.timers (omega arith)
            (is_earlier-All t.time q.timers v.rises first);
    },
  )
  | inr other ↦ (
    record q {
      timers = insert_entry (t.time, a) q.timers;
      active = insert_entry (a, t.sequence) q.active;
    },
    rw (insert_lem q a t e, e, other),
    refl,
    refl,
    refl,
    record {
      rises = insert_entry-Rises (t.time, a) q.timers v.rises;
      early =
          insert_entry-All (λ (e : Entry). ArmedBy q.armed e.0) (t.time, a) q.timers
            (not_first q.armed t.time q.timers other v.early) v.early;
    },
  )
]

-- What cancelling does: an active timer is deleted and leaves both sets, another one is noted while
-- the callbacks run, and otherwise nothing happens.
abbrev pub Cancels : TimerQueue → ℕ × ℕ → TimerQueue → Type 0
Cancels q id q' =
    ((contains id q.active ≡ true)
      × ((t : Timer) × (q.store id.0 ≡ some t)
          × (q'.timers ≡ erase_entry (t.time, id.0) q.timers)
          × (q'.store ≡ put id.0 none q.store)
          × (q'.active ≡ erase_entry id q.active)))
    ⊎ ((contains id q.active ≡ false)
        × (q.calling ≡ true)
        × (q' ≡ record q { canceling = insert_entry id q.canceling }))
    ⊎ ((contains id q.active ≡ false) × (q.calling ≡ false) × (q' ≡ q))

-- If the timers are in order, the descriptor is in time for all of them and a timer that is active
-- is live, then `cancelInLoop` keeps that. An active timer leaves the active ones and is deleted;
-- another one is noted while the callbacks run, and otherwise nothing happens.
pub cancel_in_loop-IsArmed :
    (q : TimerQueue) (id : ℕ × ℕ)
    → IsArmed q
    → (contains id q.active ≡ true → (t : Timer) × (q.store id.0 ≡ some t))
    → (q' : TimerQueue) × (cancel_in_loop q id ≡ some q') × IsArmed q' × Cancels q id q'
unfolding cancel_in_loop
cancel_in_loop-IsArmed q id v live = elim (Bool-cases (contains id q.active)) [
  | inl yes' ↦
      let (t, e) = live yes' in
      (
        record q {
          timers = erase_entry (t.time, id.0) q.timers;
          store = put id.0 none q.store;
          active = erase_entry id q.active;
        },
        rw (yes', e),
        record {
          rises = erase_entry-Rises (t.time, id.0) q.timers v.rises;
          early =
              erase_entry-All (λ (e : Entry). ArmedBy q.armed e.0) (t.time, id.0) q.timers v.early;
        },
        inl (yes', (t, e, refl, refl, refl)),
      )
  | inr no' ↦ elim (Bool-cases q.calling) [
    | inl on ↦ (
      record q { canceling = insert_entry id q.canceling },
      rw (no', on),
      record { rises = v.rises; early = v.early },
      inr (inl (no', on, refl)),
    )
    | inr off ↦ (q, rw (no', off), v, inr (inr (no', off, refl)))
  ]
]

-- The entries point to timers with the same time, which is valid.
abbrev pub AllTimed : (ℕ → Option Timer) → List Entry → Type 0
AllTimed store =
    All (λ (e : Entry). (t : Timer) × (store e.1 ≡ some t) × (t.time ≡ e.0) × (0 < t.time))

rearm_list :
    (q : TimerQueue) (xs : List Entry)
    → q.timers ≡ xs
    → Rises xs
    → AllTimed q.store xs
    → (q' : TimerQueue) × (rearm q ≡ some q') × (q' ≡ record q { armed = q'.armed }) × IsArmed q'
unfolding rearm
rearm_list q [] e r live = (q, simp (e, rearm), refl, record { rises = rw e tt; early = rw e tt })
rearm_list q ((u, b) ∷ xs) e r live =
    let (t, et, same, valid) = live.0 in
    (
      record q { armed = some t.time },
      ground (arith, et),
      refl,
      record {
        rises = rw e r;
        early = rw e (omega arith, less-le t.time u b xs (omega arith) r.0);
      },
    )

-- The end of `reset`: when the timers are in order and live with valid times, the descriptor is
-- armed for the first one and so in time for all, and nothing else changes.
pub rearm-IsArmed :
    (q : TimerQueue)
    → Rises q.timers
    → AllTimed q.store q.timers
    → (q' : TimerQueue) × (rearm q ≡ some q') × (q' ≡ record q { armed = q'.armed }) × IsArmed q'
rearm-IsArmed q r live = rearm_list q q.timers refl r live
