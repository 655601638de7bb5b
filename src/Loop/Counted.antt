-- ===== src/Loop/Counted.antt =====
-- The count of the descriptors of an event loop against the table of its poller.
use kknet.Prelude.{
  ℤ, pos, negsuc, ℕ, zero, suc, ap, ◌∙◌, sym, ◌≡◌, ◌≢◌, refl, none, some, List, [], ◌∷◌, length,
}
use kknet.Poll.Handler.{EventType}
use kknet.Poll.Select.{PollSelect, find, add_fd}
use kknet.Poll.Calls
use kknet.Poll.Calls.{unknown_call, IsTable, step-IsTable, delete_fd_known}
use kknet.Poll.Entries.{
  Known, Stays, length-assign_new, length-erase, deletes-Stays, sets-Stays, deletes_again, watch,
  watch-Stays, find-watch, added, added-Known,
}
use kknet.Loop.Descriptors.{
  increment, decrement, Watched, Call, adds, removes, clears, sets, deletes, delete_all_event, step,
  run, new,
}

increment-decrement : (i : ℤ) → increment (decrement i) ≡ i
increment-decrement (pos zero) = refl
increment-decrement (pos (suc n)) = refl
increment-decrement (negsuc n) = refl

decrement-increment : (i : ℤ) → decrement (increment i) ≡ i
decrement-increment (pos n) = refl
decrement-increment (negsuc zero) = refl
decrement-increment (negsuc (suc n)) = refl

-- A call adds a descriptor that is not in the table, or is about one that is, with its event.
abbrev pub IsFit : Watched → Call → Type 0
IsFit w (adds fd h) = find fd w.poll.events ≡ none
IsFit w (removes fd) = Known w.poll fd
IsFit w (clears fd) = Known w.poll fd
IsFit w (sets fd type) = Known w.poll fd
IsFit w (deletes fd type) = Known w.poll fd

abbrev pub Fits : Watched → List Call → Type 0
Fits w [] = Unit {0}
Fits w (c ∷ rest) = IsFit w c × Fits (step w c) rest

-- The table is in order, and has one entry more than `fdnums_` counts.
pub record IsCounted (w : Watched) : Type 0 where
  pub table : IsTable w.poll
  pub count : increment w.fdnums ≡ pos (length w.poll.events)

delete_all_event-Stays :
    (p : PollSelect) (fd : ℕ) → IsTable p → Known p fd → Stays p (delete_all_event p fd) fd
unfolding delete_all_event
delete_all_event-Stays p fd v k = deletes_again EventType.write (
    deletes_again EventType.read
      (deletes_again EventType.error (deletes-Stays p fd EventType.close v k)))

Stays-IsCounted :
    (w : Watched) (p : PollSelect) (fd : ℕ)
    → IsCounted w
    → Stays w.poll p fd
    → IsCounted (record w { poll = p })
Stays-IsCounted w p fd c s = record { table = s.table; count = c.count ∙ ap pos (sym s.entries) }

pub step-IsCounted : (w : Watched) (c : Call) → IsCounted w → IsFit w c → IsCounted (step w c)
unfolding step Calls.step add_fd
step-IsCounted w (adds fd h) v f = record {
  table = step-IsTable w.poll (Calls.adds fd h) v.table tt;
  count = ap increment v.count ∙ ap pos (sym (length-assign_new fd _ w.poll.events f));
}
step-IsCounted w (removes fd) v (ev, e) = record {
  table = step-IsTable w.poll (Calls.removes fd) v.table (ev, e);
  count = rw (delete_fd_known w.poll fd ev e) (
      increment-decrement w.fdnums
      ∙ sym (decrement-increment w.fdnums)
      ∙ ap decrement v.count
      ∙ ap (λ n. decrement (pos n)) (sym (length-erase fd (some ev) w.poll.events e)));
}
step-IsCounted w (clears fd) v k =
    Stays-IsCounted w _ fd v (delete_all_event-Stays w.poll fd v.table k)
step-IsCounted w (sets fd type) v k = Stays-IsCounted w _ fd v (sets-Stays w.poll fd type v.table k)
step-IsCounted w (deletes fd type) v k =
    Stays-IsCounted w _ fd v (deletes-Stays w.poll fd type v.table k)

pub run-IsCounted :
    (w : Watched) (calls : List Call) → IsCounted w → Fits w calls → IsCounted (run w calls)
unfolding run
run-IsCounted w [] v f = v
run-IsCounted w (c ∷ rest) v f = run-IsCounted (step w c) rest (step-IsCounted w c v f.0) f.1

-- In a new loop the descriptor of the timer queue is not counted, whatever the memory held.
new-IsCounted :
    (before : ℤ) (nfds timerfd wakeupfd : ℕ)
    → timerfd ≢ wakeupfd
    → IsCounted (new before nfds timerfd wakeupfd)
unfolding new run step add_fd watch find
new-IsCounted before nfds timerfd wakeupfd n =
    let empty : PollSelect = record { events = []; srevents = []; nfds = nfds } in
    let s = watch-Stays empty timerfd 0 (record { ascending = tt; below = tt }) in
    let first : Watched = record { poll = watch empty timerfd 0; fdnums = pos 0 } in
    run-IsCounted first (adds wakeupfd 1 ∷ sets wakeupfd EventType.read ∷ [])
      (record {
        table = s.table;
        count =
            ap pos (sym (s.entries ∙ length-assign_new timerfd (some (added timerfd 0)) [] refl));
      })
      (find-watch empty wakeupfd timerfd 0 n, (added-Known first.poll wakeupfd 1, tt))

-- After any calls that add descriptors that a new loop has not in its table, or are about those
-- that it has, the table is in order and has one entry more than `fdnums_` counts, since the
-- descriptor of the timer queue is not counted, if the two descriptors that the loop makes differ.
pub run-new :
    (before : ℤ) (nfds timerfd wakeupfd : ℕ) (calls : List Call)
    → timerfd ≢ wakeupfd
    → Fits (new before nfds timerfd wakeupfd) calls
    → IsCounted (run (new before nfds timerfd wakeupfd) calls)
run-new before nfds timerfd wakeupfd calls n f =
    run-IsCounted (new before nfds timerfd wakeupfd) calls
      (new-IsCounted before nfds timerfd wakeupfd n) f

-- `deleteFd` of a descriptor that is not in the table enters it, and counts one less.
pub removes_unknown :
    (w : Watched) (fd : ℕ)
    → find fd w.poll.events ≡ none
    → (length (step w (removes fd)).poll.events ≡ suc (length w.poll.events))
      × ((step w (removes fd)).fdnums ≡ decrement w.fdnums)
unfolding step
removes_unknown w fd e = (
  rw ((unknown_call w.poll fd EventType.read e).2) (length-assign_new fd none w.poll.events e),
  refl,
)
