-- ===== src/Timer/Expired.antt =====
-- What `getExpired` takes out of `timers_`.
use kknet.Prelude.{
  ℕ, ◌≤◌, ◌<◌, ◌≡◌, refl, ap, subst, sym, inl, inr, true, false, Bool-cases, Option, some, List, [],
  ◌∷◌, ◌++◌, All, All-append_left, All-append_right, arith,
}
use kknet.Timer.Queue.{
  Entry, Timer, TimerQueue, less, erase_entry, split_before, uintptr_max, deactivate, get_expired,
}
use kknet.Timer.Sorted.{Rises}

-- The entries before `s`, and the rest.
pub record Splits (s : Entry) (xs : List Entry) (parts : List Entry × List Entry) : Type 0 where
  pub whole : parts.0 ++ parts.1 ≡ xs
  pub before : All (λ x. less x s ≡ true) parts.0
  pub behind : All (λ x. less x s ≡ false) parts.1
  pub rises : Rises parts.1

not_less : (s x y : Entry) → less x s ≡ false → less x y ≡ true → less y s ≡ false
not_less (t, a) (u, b) (v, c) h k = ground arith

all_behind :
    (s x : Entry) (xs : List Entry)
    → less x s ≡ false
    → All (λ y. less x y ≡ true) xs
    → All (λ y. less y s ≡ false) xs
all_behind s x [] h a = tt
all_behind s x (y ∷ xs) h a = (not_less s x y h a.0, all_behind s x xs h a.1)

split_before-Splits : (s : Entry) (xs : List Entry) → Rises xs → Splits s xs (split_before s xs)
unfolding split_before
split_before-Splits s [] r = record { whole = refl; before = tt; behind = tt; rises = tt }
split_before-Splits s (x ∷ xs) r = elim (Bool-cases (less x s)) [
  | inl lt ↦
      let p = split_before-Splits s xs r.1 in
      rw lt (record {
        whole = ap (◌∷◌ x) p.whole;
        before = (lt, p.before);
        behind = p.behind;
        rises = p.rises;
      })
  | inr ge ↦
      rw ge
        (record { whole = refl; before = tt; behind = (ge, all_behind s x xs ge r.0); rises = r })
]

-- Every entry points to a timer that has not been deleted.
abbrev pub AllLive : (ℕ → Option Timer) → List Entry → Type 0
AllLive store = All (λ (e : Entry). (t : Timer) × (store e.1 ≡ some t))

deactivate_total :
    (store : ℕ → Option Timer) (xs : List Entry) (active : List (ℕ × ℕ))
    → AllLive store xs
    → (rest : List (ℕ × ℕ)) × (deactivate store xs active ≡ some rest)
unfolding deactivate
deactivate_total store [] active l = (active, refl)
deactivate_total store ((t, a) ∷ xs) active l =
    let (timer, e) = l.0 in
    let (rest, r) = deactivate_total store xs (erase_entry (a, timer.sequence) active) l.1 in
    (rest, rw e r)

before_now :
    (now : ℕ) (xs : List Entry)
    → All (λ x. less x (now, uintptr_max) ≡ true) xs
    → All (λ (e : Entry). e.0 ≤ now) xs
before_now now [] a = tt
before_now now ((t, b) ∷ xs) a = (ground arith, before_now now xs a.1)

after_now :
    (now : ℕ) (xs : List Entry)
    → All (λ (e : Entry). e.1 < uintptr_max) xs
    → All (λ x. less x (now, uintptr_max) ≡ false) xs
    → All (λ (e : Entry). now < e.0) xs
after_now now [] l a = tt
after_now now ((t, b) ∷ xs) l a = (ground arith, after_now now xs l.1 a.1)

-- What `getExpired` returns and leaves.
pub record Expires (now : ℕ) (q : TimerQueue) (expired : List Entry) (q' : TimerQueue)
    : Type 0 where
  pub whole : expired ++ q'.timers ≡ q.timers
  pub due : All (λ (e : Entry). e.0 ≤ now) expired
  pub later : All (λ (e : Entry). now < e.0) q'.timers
  pub rises : Rises q'.timers
  pub store : q'.store ≡ q.store
  pub armed : q'.armed ≡ q.armed
  pub active : deactivate q.store expired q.active ≡ some q'.active

-- Of live timers in order, with addresses below UINTPTR_MAX, `getExpired` takes those that are due,
-- in order, and leaves the later ones. It does not fault.
pub get_expired-Expires :
    (q : TimerQueue) (now : ℕ)
    → Rises q.timers
    → All (λ (e : Entry). e.1 < uintptr_max) q.timers
    → AllLive q.store q.timers
    → (expired : List Entry) × (q' : TimerQueue) × (get_expired q now ≡ some (expired, q'))
      × Expires now q expired q'
unfolding get_expired
get_expired-Expires q now r small live =
    let s : Entry = (now, uintptr_max) in
    let parts = split_before s q.timers in
    let p = split_before-Splits s q.timers r in
    let (active, e) = deactivate_total q.store parts.0 q.active (
      All-append_left (λ (e : Entry). (t : Timer) × (q.store e.1 ≡ some t)) parts.0 parts.1
        (subst (AllLive q.store) (sym p.whole) live)) in
    (
      parts.0,
      record q { timers = parts.1; active = active },
      rw e,
      record {
        whole = p.whole;
        due = before_now now parts.0 p.before;
        later =
            after_now now parts.1
              (All-append_right (λ (e : Entry). e.1 < uintptr_max) parts.0 parts.1
                (subst (All (λ (e : Entry). e.1 < uintptr_max)) (sym p.whole) small))
              p.behind;
        rises = p.rises;
        store = refl;
        armed = refl;
        active = e;
      },
    )
