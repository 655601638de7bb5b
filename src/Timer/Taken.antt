-- ===== src/Timer/Taken.antt =====
-- The timers that `getExpired` takes, and the order of a TimerQueue.
use kknet.Prelude.{
  ℕ, ◌≤◌, ◌<◌, ◌≡◌, ◌≢◌, refl, sym, ap, ◌∙◌, inl, inr, true, Option, some, List, [], ◌∷◌, ◌++◌,
  arith, subst,
}
use kknet.Timer.Queue.{
  Entry, Timer, TimerQueue, less, erase_entry, uintptr_max, deactivate, get_expired,
}
use kknet.Timer.Sorted.{Rises, erase_entry-Rises}
use kknet.Timer.Expired.{get_expired-Expires}
use kknet.Timer.Renewed.{Distinct}
use kknet.Timer.Armed.{IsArmed, ArmedBy}
use kknet.Timer.Members.{
  In, In-nil, In-cons, In-head, In-tail, All-In, In-All, In-erase_entry, In-append_left,
  In-append_right,
}
use kknet.Timer.Wellformed.{WellFormed, Timed, Numbered, Timed-unique, pair_eq, one_timer}

-- The timers that `getExpired` takes out of the active ones.
deactivate-In :
    (store : ℕ → Option Timer) (xs : List Entry) (active rest : List (ℕ × ℕ))
    → Rises active
    → ((e : Entry) → In e xs → (t : Timer) × (store e.1 ≡ some t))
    → deactivate store xs active ≡ some rest
    → Rises rest
      × ((id : ℕ × ℕ)
          → In id rest
          → In id active
            × ((e : Entry) (t : Timer) → In e xs → store e.1 ≡ some t → id ≢ (e.1, t.sequence)))
unfolding deactivate
deactivate-In store [] active rest r l h =
    let same : active ≡ rest = cc h in
    (subst Rises same r, λ id i. (subst (λ xs. In id xs) (sym same) i, λ e t n. In-nil e n))
deactivate-In store ((t, a) ∷ xs) active rest r l h =
    let (timer, s) = l (t, a) (In-head (t, a) xs) in
    let h' : deactivate store xs (erase_entry (a, timer.sequence) active) ≡ some rest = rw s at h in
    let (r', f) =
      deactivate-In store xs (erase_entry (a, timer.sequence) active) rest
        (erase_entry-Rises (a, timer.sequence) active r) (λ e i. l e (In-tail e (t, a) xs i)) h' in
    (
      r',
      λ id i.
          let (j, g) = f id i in
          let (k, n) = In-erase_entry id (a, timer.sequence) active r j in
          (
            k,
            λ e u m su. elim (In-cons e (t, a) xs m) [
              | inl eq ↦ λ z. n (
                  z
                  ∙ ap (λ (w : ℕ × ℕ). w)
                      (pair_eq (e.1, u.sequence) (a, timer.sequence) (ap (λ (w : Entry). w.1) eq)
                        (ap (λ (y : Timer). y.sequence)
                          (one_timer store e.1 a u timer su s (ap (λ (w : Entry). w.1) eq)))))
              | inr m' ↦ g e u m' su
            ],
          ),
    )

less_distinct : (x e : Entry) → e ≡ x → less x e ≡ true → ⊥
less_distinct (t, a) (u, b) z h =
    let p = ap (λ (w : Entry). w.0) z in let q = ap (λ (w : Entry). w.1) z in ground arith

-- Entries in order that point to timers of their times have different addresses.
distinct_lem :
    (store : ℕ → Option Timer) (xs ys : List Entry)
    → Rises (xs ++ ys)
    → ((e : Entry) → In e (xs ++ ys) → Timed store e)
    → Distinct xs
distinct_lem store [] ys r f = tt
distinct_lem store (x ∷ xs) ys r f = (
  In-All (λ (e : Entry). e.1 ≢ x.1) xs
      (λ e i z.
        let there = In-append_left e xs ys i in
        let u = f x (In-head x (xs ++ ys)) in
        let same =
          Timed-unique store e x.1 u.timer (f e (In-tail e x (xs ++ ys) there)) u.stored z in
        less_distinct x e (same ∙ pair_eq (u.timer.time, x.1) x u.time refl)
          (All-In (λ y. less x y ≡ true) e (xs ++ ys) r.0 there)),
  distinct_lem store xs ys r.1 (λ e i. f e (In-tail e x (xs ++ ys) i)),
)

-- The timers that `getExpired` returns have left both sets.
pub get_expired-WellFormed :
    (q : TimerQueue) (now : ℕ)
    → IsArmed q
    → WellFormed q []
    → (expired : List Entry) × (q' : TimerQueue) × (get_expired q now ≡ some (expired, q'))
      × IsArmed q'
      × WellFormed q' expired
get_expired-WellFormed q now v w =
    let (expired, q', e, x) =
      get_expired-Expires q now w.rises
        (In-All (λ (e : Entry). e.1 < uintptr_max) q.timers (λ e i. (w.timed e i).small))
        (In-All (λ (e : Entry). (t : Timer) × (q.store e.1 ≡ some t)) q.timers
          (λ e i. let t = w.timed e i in (t.timer, t.stored))) in
    let left : (e : Entry) → In e expired → In e q.timers =
      λ e i. subst (In e) x.whole (In-append_left e expired q'.timers i) in
    let right : (e : Entry) → In e q'.timers → In e q.timers =
      λ e i. subst (In e) x.whole (In-append_right e expired q'.timers i) in
    let (ar, f) =
      deactivate-In q.store expired q.active q'.active w.active_rises
        (λ e i. let t = w.timed e (left e i) in (t.timer, t.stored)) x.active in
    (
      expired,
      q',
      e,
      record {
        rises = x.rises;
        early =
            In-All (λ (e : Entry). ArmedBy q'.armed e.0) q'.timers
              (λ e i.
                rw x.armed
                  (All-In (λ (e : Entry). ArmedBy q.armed e.0) e q.timers v.early (right e i)));
      },
      record {
        rises = x.rises;
        active_rises = ar;
        timed = λ e i. subst (λ s. Timed s e) (sym x.store) (w.timed e (right e i));
        numbered = λ id i. subst (λ s. Numbered s id) (sym x.store) (w.numbered id (f id i).0);
        live = λ e i. let t = w.timed e (left e i) in (t.timer, rw x.store t.stored);
        small = λ e i. (w.timed e (left e i)).small;
        aloft = λ e g i j z.
            let t = w.timed e (left e i) in
            let same = Timed-unique q.store g e.1 t.timer (w.timed g (right g j)) t.stored z in
            omega (
              arith,
              All-In (λ (e : Entry). e.0 ≤ now) e expired x.due i,
              All-In (λ (e : Entry). now < e.0) g q'.timers x.later j,
              ap (λ (y : Entry). y.0) same,
              t.time,
            );
        dormant = λ e id i j z.
            let (there, n) = f id j in
            let t = w.timed e (left e i) in
            let u = w.numbered id there in
            n e t.timer i t.stored (
              pair_eq id (e.1, t.timer.sequence) z
                (sym u.number
                  ∙ ap (λ (y : Timer). y.sequence)
                      (one_timer q.store id.0 e.1 u.timer t.timer u.stored t.stored z)));
        distinct =
            distinct_lem q.store expired q'.timers (rw x.whole w.rises)
              (λ e i. w.timed e (subst (In e) x.whole i));
      },
    )
