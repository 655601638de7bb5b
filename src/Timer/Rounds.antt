-- ===== src/Timer/Rounds.antt =====
-- `handleRead`: a whole round of a TimerQueue, and its invariant.
use kknet.Prelude.{ℕ, ◌<◌, ◌≡◌, refl, sym, true, false, some, List, [], ◌∷◌, arith, subst, Each}
use kknet.Timer.Queue.{
  Entry, Timer, TimerQueue, Command, same, commands, get_expired, run_each, rearm, reset,
  handle_read,
}
use kknet.Timer.Armed.{IsArmed, rearm-IsArmed}
use kknet.Timer.Members.{In, In-head, In-tail, In-All}
use kknet.Timer.Wellformed.{WellFormed}
use kknet.Timer.Kept.{marked-WellFormed, CanCommandAll, commands-WellFormed}
use kknet.Timer.Taken.{get_expired-WellFormed}
use kknet.Timer.Again.{reset_each-WellFormed}

-- What the callbacks may do, each in the state that the one before leaves.
unfoldable pub CanRun : (ℕ → List Command) → List Entry → TimerQueue → Type 0
CanRun body [] q = Unit {0}
CanRun body ((t, a) ∷ xs) q =
    Each
      (λ timer.
        CanCommandAll q (body timer.callback)
        × Each (λ q'. CanRun body xs q') (commands q (body timer.callback)))
      (q.store a)

run_each-WellFormed :
    (body : ℕ → List Command) (xs : List Entry) (q : TimerQueue) (flying : List Entry)
    → ((e : Entry) → In e xs → In e flying)
    → IsArmed q
    → WellFormed q flying
    → CanRun body xs q
    → (q' : TimerQueue) × (run_each body xs q ≡ some q') × IsArmed q' × WellFormed q' flying
unfolding run_each CanRun
run_each-WellFormed body [] q flying i v w ok = (q, refl, v, w)
run_each-WellFormed body ((t, a) ∷ xs) q flying i v w ok =
    let (timer, s) = w.live (t, a) (i (t, a) (In-head (t, a) xs)) in
    let ok' : CanCommandAll q (body timer.callback)
        × Each (λ q'. CanRun body xs q') (commands q (body timer.callback)) =
      rw s at ok in
    let (q', e, v', w') = commands-WellFormed q (body timer.callback) flying v w ok'.0 in
    let (q'', e', v'', w'') =
      run_each-WellFormed body xs q' flying (λ x j. i x (In-tail x (t, a) xs j)) v' w'
        (subst (Each (λ k. CanRun body xs k)) e ok'.1) in
    (q'', rw (s, e, e'), v'', w'')

rearm-WellFormed :
    (q : TimerQueue)
    → WellFormed q []
    → (q' : TimerQueue) × (rearm q ≡ some q') × IsArmed q' × WellFormed q' []
rearm-WellFormed q w =
    let (q', e, same, v) = rearm-IsArmed q w.rises (
      In-All (λ (e : Entry). (t : Timer) × (q.store e.1 ≡ some t) × (t.time ≡ e.0) × (0 < t.time))
        q.timers
        (λ e i.
          let t = w.timed e i in (t.timer, t.stored, t.time, omega (arith, t.time, t.valid)))) in
    (
      q',
      e,
      v,
      subst (λ k. WellFormed k []) (sym same)
          (marked-WellFormed q q.calling q.canceling q'.armed [] w),
    )

-- A round, at a time after the epoch, of a TimerQueue in order: the sets agree with the heap and the
-- descriptor is in time for all timers. The callbacks may add timers, at addresses not in use and with valid times, and cancel
-- any. Then `handleRead` ends without the use of a deleted timer, in a TimerQueue in order.
pub handle_read-WellFormed :
    (body : ℕ → List Command) (q : TimerQueue) (now : ℕ)
    → IsArmed q
    → WellFormed q []
    → 0 < now
    → Each
        (λ r. CanRun body r.0 (record r.1 { calling = true; canceling = [] }))
        (get_expired q now)
    → (q' : TimerQueue) × (handle_read body q now ≡ some q') × IsArmed q' × WellFormed q' []
unfolding handle_read reset
handle_read-WellFormed body q now v w n ok =
    let (expired, q1, e1, v1, w1) = get_expired-WellFormed q now v w in
    let k : TimerQueue = record q1 { calling = true; canceling = [] } in
    let (q2, e2, v2, w2) =
      run_each-WellFormed body expired k expired (λ x i. i)
        (record { rises = v1.rises; early = v1.early })
        (marked-WellFormed q1 true [] q1.armed expired w1)
        (subst (Each (λ r. CanRun body r.0 (record r.1 { calling = true; canceling = [] }))) e1
          ok) in
    let (q3, e3, w3) =
      reset_each-WellFormed expired now (record q2 { calling = false }) n
        (marked-WellFormed q2 false q2.canceling q2.armed expired w2) in
    let (q4, e4, v4, w4) = rearm-WellFormed q3 w3 in (q4, rw (e1, e2, e3, e4), v4, w4)
