-- ===== src/Poll/Calls.antt =====
-- The calls of a PollSelect, and the invariant of its table.
use kknet.Prelude.{
  ℕ, suc, ◌-◌, ◌<◌, ◌≡◌, ◌≢◌, refl, true, false, inl, inr, Bool-cases, Option, none, some, [], ◌∷◌,
  leb, ◌==◌, if◌then◌else◌, arith, eqb→eq,
}
use kknet.Poll.Handler.{EventType}
use kknet.Poll.Select.{
  FdEvent, Events, PollSelect, find, assign, erase, at, add_fd, with_flag, returns, no_return,
  set_event, delete_event, delete_fd,
}
use kknet.Poll.Table.{
  Ascending, Below, assign-Ascending, erase-Ascending, assign-Below, erase-Below, Below-mono,
  erase_greatest-Below,
}

-- The calls of a PollSelect other than `wait`.
pub data Call : Type 0 where
  adds : ℕ → ℕ → Call
  sets : ℕ → EventType → Call
  deletes : ℕ → EventType → Call
  removes : ℕ → Call

unfoldable pub step : PollSelect → Call → PollSelect
step p (adds fd h) = add_fd p fd h
step p (sets fd type) = (set_event p fd type).1
step p (deletes fd type) = (delete_event p fd type).1
step p (removes fd) = (delete_fd p fd).1

-- The descriptor of a call is in the table with its event, or the call enters it.
abbrev pub IsKnown : PollSelect → Call → Type 0
IsKnown p (adds fd h) = Unit {0}
IsKnown p (sets fd type) = (ev : FdEvent) × (find fd p.events ≡ some (some ev))
IsKnown p (deletes fd type) = (ev : FdEvent) × (find fd p.events ≡ some (some ev))
IsKnown p (removes fd) = (ev : FdEvent) × (find fd p.events ≡ some (some ev))

pub record IsTable (p : PollSelect) : Type 0 where
  pub ascending : Ascending 0 p.events
  pub below : Below p.nfds p.events

find-Below : (fd n : ℕ) (m : Events) → Below n m → find fd m ≢ none → fd < n
unfolding find
find-Below fd n [] b h = absurd (h refl)
find-Below fd n ((k, q) ∷ m) b h = ground (arith, find-Below fd n m b.1)

known-Below :
    (fd n : ℕ) (m : Events) (ev : FdEvent) → Below n m → find fd m ≡ some (some ev) → fd < n
known-Below fd n m ev b e = find-Below fd n m b (λ z. cc)

at_known : (fd : ℕ) (q : Option FdEvent) (m : Events) → find fd m ≡ some q → at fd m ≡ (q, m)
unfolding at
at_known fd q m e = ground arith

at_unknown : (fd : ℕ) (m : Events) → find fd m ≡ none → at fd m ≡ (none, assign fd none m)
unfolding at
at_unknown fd m e = ground arith

module _ (p : PollSelect) (fd : ℕ) (type : EventType) where
  pub set_event_known :
      (ev : FdEvent)
      → find fd p.events ≡ some (some ev)
      → set_event p fd type
        ≡ (no_return, record p { events = assign fd (some (with_flag type true ev)) p.events })
  unfolding set_event
  set_event_known ev e = ground (arith, at_known fd (some ev) p.events e)

  pub delete_event_known :
      (ev : FdEvent)
      → find fd p.events ≡ some (some ev)
      → delete_event p fd type
        ≡ (returns true, record p { events = assign fd (some (with_flag type false ev)) p.events })
  unfolding delete_event
  delete_event_known ev e = ground (arith, at_known fd (some ev) p.events e)

  -- A missing descriptor is reported, and entered with a null pointer.
  pub unknown_call :
      find fd p.events ≡ none
      → (set_event p fd type ≡ (returns false, record p { events = assign fd none p.events }))
        × (delete_event p fd type ≡ (returns false, record p { events = assign fd none p.events }))
        × (delete_fd p fd ≡ (returns false, record p { events = assign fd none p.events }))
  unfolding set_event delete_event delete_fd
  unknown_call e = (
    ground (arith, at_unknown fd p.events e),
    ground (arith, at_unknown fd p.events e),
    ground (arith, at_unknown fd p.events e),
  )

pub delete_fd_known :
    (p : PollSelect) (fd : ℕ) (ev : FdEvent)
    → find fd p.events ≡ some (some ev)
    → delete_fd p fd ≡ (
      returns true,
      record p {
        events = erase fd p.events;
        nfds = if p.nfds == suc fd then p.nfds - 1 else p.nfds;
      },
    )
unfolding delete_fd
delete_fd_known p fd ev e = ground (arith, at_known fd (some ev) p.events e)

-- Calls that add a descriptor, or are about one that is in the table, keep the table: the keys
-- rise, none is above `maxfd_`, and each is the descriptor of its entry.
pub step-IsTable : (p : PollSelect) (c : Call) → IsTable p → IsKnown p c → IsTable (step p c)
unfolding step add_fd
step-IsTable p (adds fd h) v k = elim (Bool-cases (leb p.nfds fd)) [
  | inl e ↦ rw e (record {
    ascending = assign-Ascending fd 0 _ p.events (omega arith) v.ascending;
    below =
        assign-Below fd (suc fd) _ p.events (omega arith)
          (Below-mono p.events (ground arith) v.below);
  })
  | inr e ↦ rw e (record {
    ascending = assign-Ascending fd 0 _ p.events (omega arith) v.ascending;
    below = assign-Below fd p.nfds _ p.events (ground arith) v.below;
  })
]
step-IsTable p (sets fd type) v (ev, e) =
    rw (set_event_known p fd type ev e, step)
      (record {
        ascending = assign-Ascending fd 0 _ p.events (omega arith) v.ascending;
        below =
            assign-Below fd p.nfds _ p.events (known-Below fd p.nfds p.events ev v.below e) v.below;
      })
step-IsTable p (deletes fd type) v (ev, e) =
    rw (delete_event_known p fd type ev e, step)
      (record {
        ascending = assign-Ascending fd 0 _ p.events (omega arith) v.ascending;
        below =
            assign-Below fd p.nfds _ p.events (known-Below fd p.nfds p.events ev v.below e) v.below;
      })
step-IsTable p (removes fd) v (ev, e) = elim (Bool-cases (p.nfds == suc fd)) [
  | inl q ↦
      let z : p.nfds ≡ suc fd = eqb→eq p.nfds (suc fd) q in
      rw (delete_fd_known p fd ev e, q, step)
        (record {
          ascending = erase-Ascending fd 0 p.events v.ascending;
          below =
              let y : p.nfds - 1 ≡ fd = omega arith in
              rw y (erase_greatest-Below fd 0 p.events v.ascending (rw z at v.below));
        })
  | inr q ↦
      rw (delete_fd_known p fd ev e, q, step)
        (record {
          ascending = erase-Ascending fd 0 p.events v.ascending;
          below = erase-Below fd p.nfds p.events v.below;
        })
]
