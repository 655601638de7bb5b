-- ===== src/Poll/Waiting.antt =====
-- `wait`: what is asked of `select`, what is marked ready, and when it faults.
use kknet.Prelude.{ℕ, ◌≡◌, refl, none, some, [], ◌∷◌, arith, eqb_refl}
use kknet.Poll.Handler.{EventType}
use kknet.Poll.Select.{
  FdEvent, Events, PollSelect, FdSets, find, assign, delete_fd, add_if, collect, wait, Handlers,
}
use kknet.Poll.Calls.{delete_fd_known, sets, deletes, removes, step, IsTable, unknown_call}
use kknet.Poll.Table.{find-assign, find-erase}

-- A null entry makes `wait` dereference a null pointer.
collect_null : (fd : ℕ) (m : Events) (s : FdSets) → find fd m ≡ some none → collect s m ≡ none
unfolding find collect
collect_null fd [] s e = cc
collect_null fd ((k, none) ∷ m) s e = refl
collect_null fd ((k, some ev) ∷ m) s e = ground (
  arith,
  collect_null fd m (record {
    rset = add_if ev.read ev.fd s.rset;
    wset = add_if ev.write ev.fd s.wset;
    eset = add_if ev.error ev.fd s.eset;
  }),
)

nulled : (p : PollSelect) (fd : ℕ) → find fd (assign fd none p.events) ≡ some none
nulled p fd = rw (find-assign fd fd none p.events, eqb_refl fd)

module _ {C : Type 0} (select : ℕ → FdSets → ℕ × FdSets) where
  wait_null :
      (p : PollSelect) (hs : Handlers C) (fd : ℕ)
      → find fd p.events ≡ some none
      → wait select p hs ≡ none
  unfolding wait
  wait_null p hs fd e = rw (collect_null fd p.events _ e)

  -- After `setEvent`, `deleteEvent` or `deleteFd` of a descriptor that is not in the table, the
  -- next `wait` faults.
  pub unknown_faults :
      (p : PollSelect) (hs : Handlers C) (fd : ℕ) (type : EventType)
      → find fd p.events ≡ none
      → (wait select (step p (sets fd type)) hs ≡ none)
        × (wait select (step p (deletes fd type)) hs ≡ none)
        × (wait select (step p (removes fd)) hs ≡ none)
  unfolding step
  unknown_faults p hs fd type e =
      let (s, d, r) = unknown_call p fd type e in
      (
        rw (s, step)
            (wait_null (record p { events = assign fd none p.events }) hs fd (nulled p fd)),
        rw (d, step)
            (wait_null (record p { events = assign fd none p.events }) hs fd (nulled p fd)),
        rw (r, step)
            (wait_null (record p { events = assign fd none p.events }) hs fd (nulled p fd)),
      )

  -- Removing a descriptor twice makes the next `wait` fault.
  pub removes_twice_faults :
      (p : PollSelect) (hs : Handlers C) (fd : ℕ) (ev : FdEvent)
      → IsTable p
      → find fd p.events ≡ some (some ev)
      → wait select (step (step p (removes fd)) (removes fd)) hs ≡ none
  unfolding step
  removes_twice_faults p hs fd ev v e =
      let gone : find fd (delete_fd p fd).1.events ≡ none =
        rw (delete_fd_known p fd ev e, find-erase fd fd 0 p.events v.ascending, eqb_refl fd) refl in
      (unknown_faults (delete_fd p fd).1 hs fd EventType.read gone).2
