-- ===== src/Timer/Wellformed.antt =====
-- The invariant of a TimerQueue: its sets and the heap agree.
use kknet.Prelude.{ℕ, ◌<◌, ◌≡◌, ◌≢◌, sym, ap, ◌∙◌, Option, none, some, List, eqb-false, eqb_refl}
use kknet.Timer.Queue.{Entry, Timer, TimerQueue, put, uintptr_max}
use kknet.Timer.Sorted.{Rises}
use kknet.Timer.Renewed.{Distinct}
use kknet.Timer.Members.{In}

-- The entry of `timers_` points to a live timer of the same time, which is valid.
pub record Timed (store : ℕ → Option Timer) (e : Entry) : Type 0 where
  pub timer : Timer
  pub stored : store e.1 ≡ some timer
  pub time : timer.time ≡ e.0
  pub valid : 0 < e.0
  pub small : e.1 < uintptr_max

-- The entry of `activeTimers_` points to a live timer with the same number.
pub record Numbered (store : ℕ → Option Timer) (id : ℕ × ℕ) : Type 0 where
  pub timer : Timer
  pub stored : store id.0 ≡ some timer
  pub number : timer.sequence ≡ id.1

-- The sets are in order and agree with the heap. The timers of `flying` have expired: their
-- callbacks run, and they are live and in neither of the sets.
pub record WellFormed (q : TimerQueue) (flying : List Entry) : Type 0 where
  pub rises : Rises q.timers
  pub active_rises : Rises q.active
  pub timed : (e : Entry) → In e q.timers → Timed q.store e
  pub numbered : (id : ℕ × ℕ) → In id q.active → Numbered q.store id
  pub live : (e : Entry) → In e flying → (t : Timer) × (q.store e.1 ≡ some t)
  pub small : (e : Entry) → In e flying → e.1 < uintptr_max
  pub aloft : (e f : Entry) → In e flying → In f q.timers → f.1 ≢ e.1
  pub dormant : (e : Entry) (id : ℕ × ℕ) → In e flying → In id q.active → id.0 ≢ e.1
  pub distinct : Distinct flying

-- Another address keeps its timer.
module _ (store : ℕ → Option Timer) (a : ℕ) (o : Option Timer) where
  pub put-here : put a o store a ≡ o
  put-here = rw (eqb_refl a)

  pub put-other : (b : ℕ) → b ≢ a → put a o store b ≡ store b
  put-other b n = rw (eqb-false b a n)

  pub Timed-put : (e : Entry) → e.1 ≢ a → Timed store e → Timed (put a o store) e
  Timed-put e n t = record {
    timer = t.timer;
    stored = put-other e.1 n ∙ t.stored;
    time = t.time;
    valid = t.valid;
    small = t.small;
  }

  pub Numbered-put : (id : ℕ × ℕ) → id.0 ≢ a → Numbered store id → Numbered (put a o store) id
  Numbered-put id n t = record {
    timer = t.timer;
    stored = put-other id.0 n ∙ t.stored;
    number = t.number;
  }

-- A live address is not one that is not.
pub not_same :
    (store : ℕ → Option Timer) (a b : ℕ) (t : Timer) → store a ≡ none → store b ≡ some t → b ≢ a
not_same store a b t e h s = cc (e, h, s)

pub pair_eq : (x y : ℕ × ℕ) → x.0 ≡ y.0 → x.1 ≡ y.1 → x ≡ y
pair_eq (a, b) (c, d) p q = rw (p, q)

pub one_timer :
    (store : ℕ → Option Timer) (a b : ℕ) (t u : Timer)
    → store a ≡ some t
    → store b ≡ some u
    → a ≡ b
    → t ≡ u
one_timer store a b t u h k e = cc (h, k, e)

-- The entries of one address are one.
pub Timed-unique :
    (store : ℕ → Option Timer) (e : Entry) (a : ℕ) (t : Timer)
    → Timed store e
    → store a ≡ some t
    → e.1 ≡ a
    → e ≡ (t.time, a)
Timed-unique store e a t u s z =
    pair_eq e (t.time, a)
      (sym u.time ∙ ap (λ (y : Timer). y.time) (one_timer store e.1 a u.timer t u.stored s z)) z

pub Numbered-unique :
    (store : ℕ → Option Timer) (x id : ℕ × ℕ)
    → Numbered store x
    → Numbered store id
    → x.0 ≡ id.0
    → x ≡ id
Numbered-unique store x id u k z = pair_eq x id z (
    sym u.number
    ∙ ap (λ (y : Timer). y.sequence) (one_timer store x.0 id.0 u.timer k.timer u.stored k.stored z)
    ∙ k.number)
