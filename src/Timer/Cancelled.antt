-- ===== src/Timer/Cancelled.antt =====
-- What `cancelInLoop` does to the sets and the heap of a TimerQueue.
use kknet.Prelude.{
  ℕ, ◌≡◌, ◌≢◌, ◌↔◌, ◌⊎◌, refl, sym, ap, inl, inr, true, false, none, some, List, subst,
}
use kknet.Timer.Queue.{
  Entry, Timer, TimerQueue, put, contains, insert_entry, erase_entry, cancel_in_loop,
}
use kknet.Timer.Armed.{IsArmed, cancel_in_loop-IsArmed}
use kknet.Timer.Members.{In, In-erase_entry, In-erased, In-inserted}
use kknet.Timer.Wellformed.{WellFormed, put-here, put-other, Timed-unique, Numbered-unique}
use kknet.Timer.Kept.{deleted-WellFormed, marked-WellFormed}

-- The timer at an address is deleted, and what has that address is in neither set any more.
pub record IsGone (q : TimerQueue) (a : ℕ) (q' : TimerQueue) : Type 0 where
  pub deleted : q'.store a ≡ none
  pub others : (b : ℕ) → b ≢ a → q'.store b ≡ q.store b
  pub timers : (e : Entry) → In e q'.timers ↔ (In e q.timers × (e.1 ≢ a))
  pub active : (id : ℕ × ℕ) → In id q'.active ↔ (In id q.active × (id.0 ≢ a))

-- `id` is noted, and nothing else is changed.
pub record IsNoted (q : TimerQueue) (id : ℕ × ℕ) (q' : TimerQueue) : Type 0 where
  pub noted : In id q'.canceling
  pub rest : q' ≡ record q { canceling = q'.canceling }

abbrev pub Cancelled : TimerQueue → ℕ × ℕ → TimerQueue → Type 0
Cancelled q id q' =
    (In id q.active × IsGone q id.0 q')
    ⊎ ((contains id q.active ≡ false) × (q.calling ≡ true) × IsNoted q id q')
    ⊎ ((contains id q.active ≡ false) × (q.calling ≡ false) × (q' ≡ q))

gone :
    (q q' : TimerQueue) (id : ℕ × ℕ) (t : Timer) (flying : List Entry)
    → WellFormed q flying
    → In id q.active
    → q.store id.0 ≡ some t
    → q'.timers ≡ erase_entry (t.time, id.0) q.timers
    → q'.store ≡ put id.0 none q.store
    → q'.active ≡ erase_entry id q.active
    → IsGone q id.0 q'
gone q q' id t flying w here s et es ea = record {
  deleted = rw es (put-here q.store id.0 none);
  others = λ b n. rw es (put-other q.store id.0 none b n);
  timers = λ e. (
    λ i.
        let (j, n) = In-erase_entry e (t.time, id.0) q.timers w.rises (rw et at i) in
        (j, λ z. n (Timed-unique q.store e id.0 t (w.timed e j) s z)),
    λ (i, n). rw et (In-erased e (t.time, id.0) q.timers i (λ z. n (ap (λ (x : Entry). x.1) z))),
  );
  active = λ x. (
    λ i.
        let (j, n) = In-erase_entry x id q.active w.active_rises (rw ea at i) in
        (j, λ z. n (Numbered-unique q.store x id (w.numbered x j) (w.numbered id here) z)),
    λ (i, n). rw ea (In-erased x id q.active i (λ z. n (ap (λ (y : ℕ × ℕ). y.0) z))),
  );
}

-- In a TimerQueue in order, whose sets agree with the heap and whose descriptor is in time for all
-- timers, also while callbacks run, `cancelInLoop` does not use a deleted timer and keeps that order.
-- If the timer is active it is deleted and its address is in neither set any more, while all else
-- stays in the sets and in the heap. If it is not active, it is noted while the callbacks run, with
-- no other change, and otherwise nothing is changed.
pub cancel_in_loop-Cancelled :
    (q : TimerQueue) (id : ℕ × ℕ) (flying : List Entry)
    → IsArmed q
    → WellFormed q flying
    → (q' : TimerQueue) × (cancel_in_loop q id ≡ some q')
      × IsArmed q'
      × WellFormed q' flying
      × Cancelled q id q'
cancel_in_loop-Cancelled q id flying v w =
    let (q', e, v', c) =
      cancel_in_loop-IsArmed q id v (λ i. let u = w.numbered id i in (u.timer, u.stored)) in
    let (w', x) : WellFormed q' flying × Cancelled q id q' = elim c [
      | inl (here, (t, s, et, es, ea)) ↦ (
        deleted-WellFormed q q' id t flying w here s et es ea,
        inl (here, gone q q' id t flying w here s et es ea),
      )
      | inr (inl (out, on, same)) ↦ (
        subst (λ k. WellFormed k flying) (sym same)
            (marked-WellFormed q q.calling (insert_entry id q.canceling) q.armed flying w),
        inr (
            inl (
              out,
              on,
              subst (λ k. IsNoted q id k) (sym same)
                  (record { noted = In-inserted id q.canceling; rest = refl }),
            )),
      )
      | inr (inr (out, off, same)) ↦
          (subst (λ k. WellFormed k flying) (sym same) w, inr (inr (out, off, same)))
    ] in
    (q', e, v', w', x)
