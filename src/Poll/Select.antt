-- ===== src/Poll/Select.antt =====
-- A PollSelect. `events_` is a std::map: pairs in the order of the descriptors, and a null
-- unique_ptr is `none`. `nfds` is `maxfd_ + 1`, what `wait` passes to `select`. Handlers are named
-- by numbers, and their state is a function of these.
use kknet.Prelude.{
  ℕ, suc, ◌-◌, Bool, true, false, ◌&&◌, ◌||◌, Option, none, some, List, [], ◌∷◌, ltb, leb, ◌==◌,
  if◌then◌else◌, ◌>>=◌,
}
use kknet.Poll.Handler.{EventType, EventHandler, set_event_flag}

-- FD_SETSIZE: what lies beyond is outside of an fd_set.
abbrev pub fd_setsize : ℕ
fd_setsize = 1024

pub record FdEvent : Type 0 where
  pub fd : ℕ
  pub read : Bool
  pub write : Bool
  pub error : Bool
  pub close : Bool
  pub handler : ℕ

abbrev pub Events : Type 0
Events = List (ℕ × Option FdEvent)

pub record PollSelect : Type 0 where
  pub events : Events
  pub srevents : List ℕ
  pub nfds : ℕ

-- The three sets of `select`.
pub record FdSets : Type 0 where
  pub rset : ℕ → Bool
  pub wset : ℕ → Bool
  pub eset : ℕ → Bool

-- std::map: `find`, `m[fd] = p` and `erase`.
unfoldable pub find : ℕ → Events → Option (Option FdEvent)
find fd [] = none
find fd ((k, p) ∷ m) = if k == fd then some p else find fd m

unfoldable pub assign : ℕ → Option FdEvent → Events → Events
assign fd p [] = (fd, p) ∷ []
assign fd p ((k, q) ∷ m) =
    if k == fd
    then (fd, p) ∷ m
    else if ltb fd k
    then (fd, p) ∷ (k, q) ∷ m
    else (k, q) ∷ assign fd p m

unfoldable pub erase : ℕ → Events → Events
erase fd [] = []
erase fd ((k, q) ∷ m) = if k == fd then m else (k, q) ∷ erase fd m

-- `events_[fd]`: a missing descriptor is entered with a null pointer.
unfoldable pub at : ℕ → Events → Option FdEvent × Events
unfolding find assign
at fd m = elim (find fd m) [ none ↦ (none, assign fd none m) | some p ↦ (p, m) ]

unfoldable pub add_fd : PollSelect → ℕ → ℕ → PollSelect
add_fd p fd h = record p {
  events =
      assign fd
        (some (record {
          fd = fd;
          read = false;
          write = false;
          error = false;
          close = false;
          handler = h;
        }))
        p.events;
  nfds = if leb p.nfds fd then suc fd else p.nfds;
}

-- The flag of an event that `setEvent` and `deleteEvent` change. They leave `kClose` alone.
abbrev pub with_flag : EventType → Bool → FdEvent → FdEvent
with_flag EventType.read b ev = record ev { read = b }
with_flag EventType.write b ev = record ev { write = b }
with_flag EventType.error b ev = record ev { error = b }
with_flag EventType.close b ev = ev

-- What a call returns: `setEvent` has no return statement at its end.
pub data Answer : Type 0 where
  returns : Bool → Answer
  no_return : Answer

unfoldable pub set_event : PollSelect → ℕ → EventType → Answer × PollSelect
set_event p fd type =
    let m = (at fd p.events).1 in
    elim (at fd p.events).0 [
      | none ↦ (returns false, record p { events = m })
      | some ev ↦ (no_return, record p { events = assign fd (some (with_flag type true ev)) m })
    ]

unfoldable pub delete_event : PollSelect → ℕ → EventType → Answer × PollSelect
delete_event p fd type =
    let m = (at fd p.events).1 in
    elim (at fd p.events).0 [
      | none ↦ (returns false, record p { events = m })
      | some ev ↦ (returns true, record p { events = assign fd (some (with_flag type false ev)) m })
    ]

unfoldable pub delete_fd : PollSelect → ℕ → Answer × PollSelect
delete_fd p fd =
    let m = (at fd p.events).1 in
    elim (at fd p.events).0 [
      | none ↦ (returns false, record p { events = m })
      | some ev ↦ (
        returns true,
        record p { events = erase fd m; nfds = if p.nfds == suc fd then p.nfds - 1 else p.nfds },
      )
    ]

abbrev pub add_if : Bool → ℕ → (ℕ → Bool) → ℕ → Bool
add_if b fd s k = if b && (k == fd) then true else s k

-- The first loop of `wait`: FD_SET for the events asked for.
unfoldable pub collect : FdSets → Events → Option FdSets
collect s [] = some s
collect s ((k, none) ∷ m) = none
collect s ((k, some ev) ∷ m) =
    if (ev.read || ev.write || ev.error) && leb fd_setsize ev.fd
    then none
    else collect
        (record {
          rset = add_if ev.read ev.fd s.rset;
          wset = add_if ev.write ev.fd s.wset;
          eset = add_if ev.error ev.fd s.eset;
        })
        m

abbrev pub Handlers : Type 0 → Type 0
Handlers C = ℕ → EventHandler C

abbrev pub is_ready : FdSets → FdEvent → Bool
is_ready s ev =
    (s.rset ev.fd && ev.read) || (s.wset ev.fd && ev.write) || (s.eset ev.fd && ev.error)

module _ {C : Type 0} where
  abbrev pub raise : Bool → EventType → ℕ → Handlers C → Handlers C
  raise b type h hs k = if b && (k == h) then set_event_flag (hs k) type else hs k

  -- The second loop of `wait`.
  unfoldable pub dispatch : FdSets → Events → Handlers C → Option (List ℕ × Handlers C)
  dispatch s [] hs = some ([], hs)
  dispatch s ((k, none) ∷ m) hs = none
  dispatch s ((k, some ev) ∷ m) hs =
      let after = raise (s.eset ev.fd && ev.error) EventType.error ev.handler (
        raise (s.wset ev.fd && ev.write) EventType.write ev.handler
          (raise (s.rset ev.fd && ev.read) EventType.read ev.handler hs)) in
      let rest = dispatch s m after in
      if leb fd_setsize ev.fd
      then none
      else rest >>= λ r. some ((if is_ready s ev then ev.handler ∷ r.0 else r.0), r.1)

  -- `select` is the system call: it is given `nfds` and the sets, and returns its result and the
  -- sets that it has changed.
  unfoldable pub wait :
      (ℕ → FdSets → ℕ × FdSets) → PollSelect → Handlers C → Option (ℕ × PollSelect × Handlers C)
  wait select p hs =
      collect (record { rset = λ _. false; wset = λ _. false; eset = λ _. false }) p.events >>= λ s.
      dispatch (select p.nfds s).1 p.events hs >>= λ r.
      some ((select p.nfds s).0, record p { srevents = r.0 }, r.1)
