-- ===== src/Timer/Renewed.antt =====
-- What `reset` does with the timers that have expired.
use kknet.Prelude.{
  ℕ, ◌≡◌, ◌≢◌, refl, sym, subst, ◌∙◌, ◌⊎◌, inl, inr, Bool, true, false, not, ◌&&◌, Bool-cases,
  Option, some, none, List, [], ◌∷◌, if◌then◌else◌, All, arith, eqb-false, eqb_refl,
}
use kknet.Timer.Queue.{
  Entry, Timer, TimerQueue, less, same, repeat, restart, put, insert_entry, contains, insert,
  reset_each,
}
use kknet.Timer.Sorted.{Rises, insert_entry-Rises}

same_refl : (e : Entry) → same e e ≡ true
same_refl (t, a) = ground arith

or_true : (b : Bool) → (if b then true else true) ≡ true
or_true true = refl
or_true false = refl

contains-insert_entry : (e : Entry) (xs : List Entry) → contains e (insert_entry e xs) ≡ true
unfolding contains insert_entry
contains-insert_entry e [] = rw (same_refl e) refl
contains-insert_entry e (x ∷ xs) = elim (Bool-cases (less e x)) [
  | inl lt ↦ rw (lt, same_refl e) refl
  | inr ge ↦ elim (Bool-cases (same e x)) [
    | inl eq ↦ rw (ge, eq) (rw eq refl)
    | inr ne ↦ rw (ge, ne) (rw ne (contains-insert_entry e xs))
  ]
]

kept-insert_entry :
    (e x : Entry) (xs : List Entry) → contains e xs ≡ true → contains e (insert_entry x xs) ≡ true
unfolding contains insert_entry
kept-insert_entry e x [] h = absurd (ground arith)
kept-insert_entry e x (y ∷ xs) h = elim (Bool-cases (same e y)) [
  | inl here ↦ elim (Bool-cases (less x y)) [
    | inl lt ↦ rw (lt, here) (or_true (same e x))
    | inr ge ↦ elim (Bool-cases (same x y)) [
      | inl eq ↦ rw (ge, eq, here) refl
      | inr ne ↦ rw (ge, ne, here) refl
    ]
  ]
  | inr there ↦
      let h' : contains e xs ≡ true = sym (rw there refl) ∙ h in
      elim (Bool-cases (less x y)) [
        | inl lt ↦ rw (lt, there, h') (or_true (same e x))
        | inr ge ↦ elim (Bool-cases (same x y)) [
          | inl eq ↦ rw (ge, eq, there) h'
          | inr ne ↦ rw (ge, ne, there) (kept-insert_entry e x xs h')
        ]
      ]
]

-- No entry has the address.
abbrev pub IsElsewhere : ℕ → List Entry → Type 0
IsElsewhere a = All (λ (e : Entry). e.1 ≢ a)

abbrev pub Distinct : List Entry → Type 0
Distinct [] = Unit
Distinct (e ∷ xs) = IsElsewhere e.1 xs × Distinct xs

-- Whether the timer goes on.
abbrev pub goes_on : TimerQueue → ℕ → Timer → Bool
goes_on q a t = repeat t && not (contains (a, t.sequence) q.canceling)

-- The timer at `a` has been started again and is in the queue, or it has been deleted.
pub record Renewed (q : TimerQueue) (now a : ℕ) (q' : TimerQueue) : Type 0 where
  pub timer : Timer
  pub was : q.store a ≡ some timer
  pub renewed :
      (goes_on q a timer ≡ true)
        × (q'.store a ≡ some (restart timer now))
        × (contains ((restart timer now).time, a) q'.timers ≡ true)
      ⊎ (goes_on q a timer ≡ false) × (q'.store a ≡ none)

-- What `reset_each` leaves for the timers, and of the rest of the queue.
pub record Resets (q : TimerQueue) (now : ℕ) (xs : List Entry) (q' : TimerQueue) : Type 0 where
  pub each : All (λ (e : Entry). Renewed q now e.1 q') xs
  pub rises : Rises q'.timers
  pub kept : (e : Entry) → contains e q.timers ≡ true → contains e q'.timers ≡ true
  pub others : (a : ℕ) → IsElsewhere a xs → q'.store a ≡ q.store a
  pub canceling : q'.canceling ≡ q.canceling

-- The first timer, and the queue after it.
record ResetsOne (q : TimerQueue) (now a : ℕ) (t : Timer) (q' : TimerQueue) : Type 0 where
  renewed :
      (goes_on q a t ≡ true)
        × (q'.store a ≡ some (restart t now))
        × (contains ((restart t now).time, a) q'.timers ≡ true)
      ⊎ (goes_on q a t ≡ false) × (q'.store a ≡ none)
  rises : Rises q'.timers
  kept : (e : Entry) → contains e q.timers ≡ true → contains e q'.timers ≡ true
  others : (b : ℕ) → b ≢ a → q'.store b ≡ q.store b
  canceling : q'.canceling ≡ q.canceling

abbrev AllStored : (ℕ → Option Timer) → List Entry → Type 0
AllStored store = All (λ (e : Entry). (t : Timer) × (store e.1 ≡ some t))

restored :
    (store store' : ℕ → Option Timer) (a : ℕ) (xs : List Entry)
    → ((b : ℕ) → b ≢ a → store' b ≡ store b)
    → IsElsewhere a xs
    → AllStored store xs
    → AllStored store' xs
restored store store' a [] f d l = tt
restored store store' a ((u, b) ∷ xs) f d l =
    ((l.0.0, f b d.0 ∙ l.0.1), restored store store' a xs f d.1 l.1)

reset_one :
    (q : TimerQueue) (now t a : ℕ) (xs : List Entry) (timer : Timer)
    → q.store a ≡ some timer
    → Rises q.timers
    → (q' : TimerQueue) × (reset_each ((t, a) ∷ xs) now q ≡ reset_each xs now q')
      × ResetsOne q now a timer q'
unfolding reset_each insert
reset_one q now t a xs timer e r = elim (Bool-cases (goes_on q a timer)) [
  | inl on ↦ (
    record q {
      store = put a (some (restart timer now)) q.store;
      timers = insert_entry ((restart timer now).time, a) q.timers;
      active = insert_entry (a, (restart timer now).sequence) q.active;
    },
    rw (e, on, eqb_refl a) refl,
    record {
      renewed = inl (on, rw (eqb_refl a) refl, contains-insert_entry _ q.timers);
      rises = insert_entry-Rises _ q.timers r;
      kept = λ x. kept-insert_entry x _ q.timers;
      others = λ b n. rw (eqb-false b a n) refl;
      canceling = refl;
    },
  )
  | inr off ↦ (
    record q { store = put a none q.store },
    rw (e, off) refl,
    record {
      renewed = inr (off, rw (eqb_refl a) refl);
      rises = r;
      kept = λ x h. h;
      others = λ b n. rw (eqb-false b a n) refl;
      canceling = refl;
    },
  )
]

transfer :
    (q q' q'' : TimerQueue) (now a : ℕ) (t : Timer) (xs : List Entry)
    → q.store a ≡ some t
    → ResetsOne q now a t q'
    → IsElsewhere a xs
    → Resets q' now xs q''
    → Renewed q now a q''
transfer q q' q'' now a t xs e h d k = record {
  timer = t;
  was = e;
  renewed = elim h.renewed [
    | inl (on, at, has) ↦ inl (on, k.others a d ∙ at, k.kept _ has)
    | inr (off, at) ↦ inr (off, k.others a d ∙ at)
  ];
}

back :
    (q q' q'' : TimerQueue) (now a : ℕ) (t : Timer) (xs : List Entry)
    → ResetsOne q now a t q'
    → IsElsewhere a xs
    → All (λ (e : Entry). Renewed q' now e.1 q'') xs
    → All (λ (e : Entry). Renewed q now e.1 q'') xs
back q q' q'' now a t [] h d r = tt
back q q' q'' now a t ((u, b) ∷ xs) h d r = (
  record {
    timer = r.0.timer;
    was = sym (h.others b d.0) ∙ r.0.was;
    renewed =
        subst
          (λ (c : List (ℕ × ℕ)).
            ((repeat r.0.timer && not (contains (b, r.0.timer.sequence) c)) ≡ true)
              × (q''.store b ≡ some (restart r.0.timer now))
              × (contains ((restart r.0.timer now).time, b) q''.timers ≡ true)
            ⊎ ((repeat r.0.timer && not (contains (b, r.0.timer.sequence) c)) ≡ false)
              × (q''.store b ≡ none))
          h.canceling r.0.renewed;
  },
  back q q' q'' now a t xs h d.1 r.1,
)

-- For live timers at different addresses, the loop of `reset` does not fault. Each timer that
-- repeats and was not cancelled meanwhile is started again from now and is in the queue; each other
-- one is deleted. The queue is in order if it was, and keeps the entries that it had.
pub reset_each-Resets :
    (xs : List Entry) (now : ℕ) (q : TimerQueue)
    → Distinct xs
    → All (λ (e : Entry). (t : Timer) × (q.store e.1 ≡ some t)) xs
    → Rises q.timers
    → (q' : TimerQueue) × (reset_each xs now q ≡ some q') × Resets q now xs q'
unfolding reset_each
reset_each-Resets [] now q d live r = (
  q,
  refl,
  record { each = tt; rises = r; kept = λ e h. h; others = λ a d. refl; canceling = refl },
)
reset_each-Resets ((t, a) ∷ xs) now q d live r =
    let (timer, e) = live.0 in
    let (q', first, h) = reset_one q now t a xs timer e r in
    let (q'', rest, k) =
      reset_each-Resets xs now q' d.1 (restored q.store q'.store a xs h.others d.0 live.1)
        h.rises in
    (
      q'',
      first ∙ rest,
      record {
        each =
            (transfer q q' q'' now a timer xs e h d.0 k, back q q' q'' now a timer xs h d.0 k.each);
        rises = k.rises;
        kept = λ x y. k.kept x (h.kept x y);
        others = λ b n. k.others b n.1 ∙ h.others b (λ s. n.0 (sym s));
        canceling = k.canceling ∙ h.canceling;
      },
    )
