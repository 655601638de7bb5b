-- ===== src/Timer/Kept.antt =====
-- What callbacks do with a TimerQueue, and its invariant.
use kknet.Prelude.{
  ℕ, ◌<◌, ◌≡◌, ◌≢◌, refl, sym, ap, ◌∙◌, inl, inr, Bool, Option, none, some, List, [], ◌∷◌, subst,
  Each,
}
use kknet.Timer.Queue.{
  Entry, Timer, TimerQueue, Command, adds, cancels, put, insert_entry, erase_entry, uintptr_max,
  command, commands,
}
use kknet.Timer.Sorted.{insert_entry-Rises, erase_entry-Rises}
use kknet.Timer.Armed.{IsArmed, add_timer_in_loop-IsArmed, cancel_in_loop-IsArmed}
use kknet.Timer.Members.{In, In-insert_entry, In-erase_entry}
use kknet.Timer.Wellformed.{
  WellFormed, put-here, put-other, Timed-put, Numbered-put, not_same, Timed-unique, Numbered-unique,
}

-- A timer comes into both sets, at an address that neither of them has.
pub inserted-WellFormed :
    (q q' : TimerQueue) (a : ℕ) (t : Timer) (flying : List Entry)
    → WellFormed q flying
    → ((e : Entry) → In e q.timers → e.1 ≢ a)
    → ((id : ℕ × ℕ) → In id q.active → id.0 ≢ a)
    → ((e : Entry) → In e flying → e.1 ≢ a)
    → 0 < t.time
    → a < uintptr_max
    → q'.store ≡ put a (some t) q.store
    → q'.timers ≡ insert_entry (t.time, a) q.timers
    → q'.active ≡ insert_entry (a, t.sequence) q.active
    → WellFormed q' flying
inserted-WellFormed q q' a t flying w f g h valid small es et ea = record {
  rises = rw et (insert_entry-Rises (t.time, a) q.timers w.rises);
  active_rises = rw ea (insert_entry-Rises (a, t.sequence) q.active w.active_rises);
  timed = λ e i. elim (In-insert_entry e (t.time, a) q.timers (rw et at i)) [
    | inl eq ↦
        rw (es, eq)
          (record {
            timer = t;
            stored = put-here q.store a (some t);
            time = refl;
            valid = valid;
            small = small;
          })
    | inr i' ↦ rw es (Timed-put q.store a (some t) e (f e i') (w.timed e i'))
  ];
  numbered = λ id i. elim (In-insert_entry id (a, t.sequence) q.active (rw ea at i)) [
    | inl eq ↦
        rw (es, eq) (record { timer = t; stored = put-here q.store a (some t); number = refl })
    | inr i' ↦ rw es (Numbered-put q.store a (some t) id (g id i') (w.numbered id i'))
  ];
  live =
      λ e i. let (u, s) = w.live e i in (u, rw es (put-other q.store a (some t) e.1 (h e i) ∙ s));
  small = w.small;
  aloft = λ e x i j. elim (In-insert_entry x (t.time, a) q.timers (rw et at j)) [
    | inl eq ↦ λ s. h e i (sym s ∙ ap (λ (z : Entry). z.1) eq)
    | inr j' ↦ w.aloft e x i j'
  ];
  dormant = λ e x i j. elim (In-insert_entry x (a, t.sequence) q.active (rw ea at j)) [
    | inl eq ↦ λ s. h e i (sym s ∙ ap (λ (z : ℕ × ℕ). z.0) eq)
    | inr j' ↦ w.dormant e x i j'
  ];
  distinct = w.distinct;
}

-- An active timer is deleted and leaves both sets.
pub deleted-WellFormed :
    (q q' : TimerQueue) (id : ℕ × ℕ) (t : Timer) (flying : List Entry)
    → WellFormed q flying
    → In id q.active
    → q.store id.0 ≡ some t
    → q'.timers ≡ erase_entry (t.time, id.0) q.timers
    → q'.store ≡ put id.0 none q.store
    → q'.active ≡ erase_entry id q.active
    → WellFormed q' flying
deleted-WellFormed q q' id t flying w here s et es ea = record {
  rises = rw et (erase_entry-Rises (t.time, id.0) q.timers w.rises);
  active_rises = rw ea (erase_entry-Rises id q.active w.active_rises);
  timed = λ e i.
      let (j, n) = In-erase_entry e (t.time, id.0) q.timers w.rises (rw et at i) in
      let u = w.timed e j in
      rw es (Timed-put q.store id.0 none e (λ z. n (Timed-unique q.store e id.0 t u s z)) u);
  numbered = λ x i.
      let (j, n) = In-erase_entry x id q.active w.active_rises (rw ea at i) in
      let u = w.numbered x j in
      rw es (
        Numbered-put q.store id.0 none x
          (λ z. n (Numbered-unique q.store x id u (w.numbered id here) z)) u);
  live = λ e i.
      let (u, h) = w.live e i in
      (u, rw es (put-other q.store id.0 none e.1 (λ z. w.dormant e id i here (sym z)) ∙ h));
  small = w.small;
  aloft =
      λ e x i j. w.aloft e x i (In-erase_entry x (t.time, id.0) q.timers w.rises (rw et at j)).0;
  dormant = λ e x i j. w.dormant e x i (In-erase_entry x id q.active w.active_rises (rw ea at j)).0;
  distinct = w.distinct;
}

-- The other fields do not count.
pub marked-WellFormed :
    (q : TimerQueue) (calling : Bool) (canceling : List (ℕ × ℕ)) (armed : Option ℕ)
    (flying : List Entry)
    → WellFormed q flying
    → WellFormed (record q { calling = calling; canceling = canceling; armed = armed }) flying
marked-WellFormed q calling canceling armed flying w = record {
  rises = w.rises;
  active_rises = w.active_rises;
  timed = w.timed;
  numbered = w.numbered;
  live = w.live;
  small = w.small;
  aloft = w.aloft;
  dormant = w.dormant;
  distinct = w.distinct;
}

-- What a callback may do: a new timer has an address that is not in use and a valid time.
abbrev pub CanCommand : TimerQueue → Command → Type 0
CanCommand q (adds a t) = (q.store a ≡ none) × (0 < t.time) × (a < uintptr_max)
CanCommand q (cancels id) = Unit {0}

pub command-WellFormed :
    (q : TimerQueue) (c : Command) (flying : List Entry)
    → IsArmed q
    → WellFormed q flying
    → CanCommand q c
    → (q' : TimerQueue) × (command q c ≡ some q') × IsArmed q' × WellFormed q' flying
unfolding command
command-WellFormed q (adds a t) flying v w (free, valid, small) =
    let k : TimerQueue = record q { store = put a (some t) q.store } in
    let v' : IsArmed k = record { rises = v.rises; early = v.early } in
    let (q', e, et, ea, es, v'') =
      add_timer_in_loop-IsArmed k a t v' (put-here q.store a (some t)) in
    (
      q',
      e,
      v'',
      inserted-WellFormed q q' a t flying w
          (λ x i. let u = w.timed x i in not_same q.store a x.1 u.timer free u.stored)
          (λ x i. let u = w.numbered x i in not_same q.store a x.0 u.timer free u.stored)
          (λ x i. let (u, s) = w.live x i in not_same q.store a x.1 u free s) valid small es et ea,
    )
command-WellFormed q (cancels id) flying v w ok =
    let (q', e, v', c) =
      cancel_in_loop-IsArmed q id v (λ i. let u = w.numbered id i in (u.timer, u.stored)) in
    (
      q',
      e,
      v',
      elim c [
        | inl (here, (t, s, et, es, ea)) ↦ deleted-WellFormed q q' id t flying w here s et es ea
        | inr (inl (out, on, same)) ↦
            subst (λ k. WellFormed k flying) (sym same)
              (marked-WellFormed q q.calling (insert_entry id q.canceling) q.armed flying w)
        | inr (inr (out, off, same)) ↦ subst (λ k. WellFormed k flying) (sym same) w
      ],
    )

-- The commands of a callback, each in the state that the one before leaves.
unfoldable pub CanCommandAll : TimerQueue → List Command → Type 0
CanCommandAll q [] = Unit {0}
CanCommandAll q (c ∷ cs) = CanCommand q c × Each (λ q'. CanCommandAll q' cs) (command q c)

pub commands-WellFormed :
    (q : TimerQueue) (cs : List Command) (flying : List Entry)
    → IsArmed q
    → WellFormed q flying
    → CanCommandAll q cs
    → (q' : TimerQueue) × (commands q cs ≡ some q') × IsArmed q' × WellFormed q' flying
unfolding commands CanCommandAll
commands-WellFormed q [] flying v w ok = (q, refl, v, w)
commands-WellFormed q (c ∷ cs) flying v w (ok, oks) =
    let (q', e, v', w') = command-WellFormed q c flying v w ok in
    let (q'', e', v'', w'') =
      commands-WellFormed q' cs flying v' w' (subst (Each (λ k. CanCommandAll k cs)) e oks) in
    (q'', rw (e, e'), v'', w'')
