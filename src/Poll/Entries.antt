-- ===== src/Poll/Entries.antt =====
-- The number of entries in the table of a PollSelect, and the calls.
use kknet.Prelude.{
  ℕ, suc, ◌∙◌, true, false, ◌≡◌, ◌≢◌, refl, Option, none, some, [], ◌∷◌, arith, length, eqb_refl,
  eqb-false,
}
use kknet.Poll.Handler.{EventType}
use kknet.Poll.Select.{
  FdEvent, Events, PollSelect, find, assign, erase, with_flag, add_fd, delete_event, set_event,
}
use kknet.Poll.Table.{Ascending, find_low, find-assign}
use kknet.Poll.Calls.{
  adds, sets, deletes, step, IsTable, step-IsTable, delete_event_known, set_event_known,
}

pub length-assign_new :
    (fd : ℕ) (p : Option FdEvent) (m : Events)
    → find fd m ≡ none
    → length (assign fd p m) ≡ suc (length m)
unfolding find assign
length-assign_new fd p [] e = refl
length-assign_new fd p ((k, q) ∷ m) e = ground (arith, length-assign_new fd p m)

length-assign_known :
    (fd low : ℕ) (p q : Option FdEvent) (m : Events)
    → Ascending low m
    → find fd m ≡ some q
    → length (assign fd p m) ≡ length m
unfolding find assign
length-assign_known fd low p q [] a e = cc
length-assign_known fd low p q ((k, r) ∷ m) a e =
    ground (arith, length-assign_known fd (suc k) p q m a.1, find_low fd (suc k) m a.1)

pub length-erase :
    (fd : ℕ) (q : Option FdEvent) (m : Events)
    → find fd m ≡ some q
    → suc (length (erase fd m)) ≡ length m
unfolding find erase
length-erase fd q [] e = cc
length-erase fd q ((k, r) ∷ m) e = ground (arith, length-erase fd q m)

-- The descriptor is in the table, with its event.
abbrev pub Known : PollSelect → ℕ → Type 0
Known p fd = (ev : FdEvent) × (find fd p.events ≡ some (some ev))

-- What one call for a known descriptor does to the poller: the table stays in order, and has the
-- descriptor still, and as many entries.
pub record Stays (p p' : PollSelect) (fd : ℕ) : Type 0 where
  pub table : IsTable p'
  pub entries : length p'.events ≡ length p.events
  pub known : Known p' fd

module _ (p : PollSelect) (fd : ℕ) (type : EventType) (v : IsTable p) where
  assigned : FdEvent → PollSelect
  assigned ev' = record p { events = assign fd (some ev') p.events }

  assigned-Stays : Known p fd → (ev' : FdEvent) → IsTable (assigned ev') → Stays p (assigned ev') fd
  unfolding assigned
  assigned-Stays (ev, e) ev' v' = record {
    table = v';
    entries = length-assign_known fd 0 (some ev') (some ev) p.events v.ascending e;
    known = (ev', rw (find-assign fd fd (some ev') p.events, eqb_refl fd) refl);
  }

  pub deletes-Stays : Known p fd → Stays p (delete_event p fd type).1 fd
  unfolding assigned step
  deletes-Stays (ev, e) =
      let v' = step-IsTable p (deletes fd type) v (ev, e) in
      rw (delete_event_known p fd type ev e) (
        assigned-Stays (ev, e) (with_flag type false ev)
          (rw (delete_event_known p fd type ev e, step) at v'))

  pub sets-Stays : Known p fd → Stays p (set_event p fd type).1 fd
  unfolding assigned step
  sets-Stays (ev, e) =
      let v' = step-IsTable p (sets fd type) v (ev, e) in
      rw (set_event_known p fd type ev e) (
        assigned-Stays (ev, e) (with_flag type true ev)
          (rw (set_event_known p fd type ev e, step) at v'))

Stays-trans : {p p' p'' : PollSelect} {fd : ℕ} → Stays p p' fd → Stays p' p'' fd → Stays p p'' fd
Stays-trans s t = record { table = t.table; entries = t.entries ∙ s.entries; known = t.known }

pub deletes_again :
    {p p' : PollSelect} {fd : ℕ} (type : EventType)
    → Stays p p' fd
    → Stays p (delete_event p' fd type).1 fd
deletes_again {p' = p'} {fd = fd} type s = Stays-trans s (deletes-Stays p' fd type s.table s.known)

-- A descriptor that has just been added, and one that is then to be read.
abbrev pub added : ℕ → ℕ → FdEvent
added fd h = record {
  fd = fd;
  read = false;
  write = false;
  error = false;
  close = false;
  handler = h;
}

pub added-Known : (p : PollSelect) (fd h : ℕ) → Known (add_fd p fd h) fd
unfolding add_fd
added-Known p fd h =
    (added fd h, rw (find-assign fd fd (some (added fd h)) p.events, eqb_refl fd) refl)

unfoldable pub watch : PollSelect → ℕ → ℕ → PollSelect
watch p fd h = (set_event (add_fd p fd h) fd EventType.read).1

pub watch-Stays : (p : PollSelect) (fd h : ℕ) → IsTable p → Stays (add_fd p fd h) (watch p fd h) fd
unfolding watch step
watch-Stays p fd h v =
    sets-Stays (add_fd p fd h) fd EventType.read (step-IsTable p (adds fd h) v tt)
      (added-Known p fd h)

find-add_fd :
    (p : PollSelect) (j fd h : ℕ) → fd ≢ j → find j (add_fd p fd h).events ≡ find j p.events
unfolding add_fd
find-add_fd p j fd h n = rw (find-assign j fd (some (added fd h)) p.events) (ground arith)

pub find-watch :
    (p : PollSelect) (j fd h : ℕ) → fd ≢ j → find j (watch p fd h).events ≡ find j p.events
unfolding watch
find-watch p j fd h n =
    let (ev, e) = added-Known p fd h in
    let q = add_fd p fd h in
    rw
      (
        set_event_known q fd EventType.read ev e,
        watch,
        find-assign j fd (some (record ev { read = true })) q.events,
      )
      (rw (eqb-false fd j n) (find-add_fd p j fd h n))
