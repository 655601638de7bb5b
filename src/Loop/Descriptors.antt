-- ===== src/Loop/Descriptors.antt =====
-- src/reactor/Eventloop.h and Eventloop.cpp: the descriptors of an event loop, and how it counts
-- them. `EventloopPool` chooses a loop by this count.
use kknet.Prelude.{ℤ, pos, negsuc, ℕ, zero, suc, List, [], ◌∷◌}
use kknet.Poll.Handler.{EventType}
use kknet.Poll.Select.{PollSelect, add_fd, set_event, delete_event, delete_fd}

-- `fdnums_` is signed.
abbrev pub increment : ℤ → ℤ
increment (pos n) = pos (suc n)
increment (negsuc zero) = pos 0
increment (negsuc (suc n)) = negsuc n

abbrev pub decrement : ℤ → ℤ
decrement (pos zero) = negsuc 0
decrement (pos (suc n)) = pos n
decrement (negsuc n) = negsuc (suc n)

pub record Watched : Type 0 where
  pub poll : PollSelect
  pub fdnums : ℤ

-- `clears` is `deleteAllEvent`.
pub data Call : Type 0 where
  adds : ℕ → ℕ → Call
  removes clears : ℕ → Call
  sets deletes : ℕ → EventType → Call

unfoldable pub delete_all_event : PollSelect → ℕ → PollSelect
delete_all_event p fd =
    let p1 = (delete_event p fd EventType.close).1 in
    let p2 = (delete_event p1 fd EventType.error).1 in
    let p3 = (delete_event p2 fd EventType.read).1 in (delete_event p3 fd EventType.write).1

unfoldable pub step : Watched → Call → Watched
step w (adds fd h) = record { poll = add_fd w.poll fd h; fdnums = increment w.fdnums }
step w (removes fd) = record { poll = (delete_fd w.poll fd).1; fdnums = decrement w.fdnums }
step w (sets fd type) = record w { poll = (set_event w.poll fd type).1 }
step w (deletes fd type) = record w { poll = (delete_event w.poll fd type).1 }
step w (clears fd) = record w { poll = delete_all_event w.poll fd }

unfoldable pub run : Watched → List Call → Watched
run w [] = w
run w (c ∷ rest) = run (step w c) rest

-- `timerQueue_` is declared before `fdnums_`, so its constructor calls `addFd` and `setEvent` on a
-- count that is `before`, whatever the memory holds; then `fdnums_(0)` follows, and the body. The
-- handlers of the timer queue and of the wakeup descriptor are 0 and 1. `maxfd_` of a new
-- PollSelect is what the memory holds too: `nfds` less 1.
unfoldable pub new : ℤ → ℕ → ℕ → ℕ → Watched
new before nfds timerfd wakeupfd =
    let empty : Watched = record {
      poll = record { events = []; srevents = []; nfds = nfds };
      fdnums = before;
    } in
    let w = run empty (adds timerfd 0 ∷ sets timerfd EventType.read ∷ []) in
    run (record w { fdnums = pos 0 }) (adds wakeupfd 1 ∷ sets wakeupfd EventType.read ∷ [])
