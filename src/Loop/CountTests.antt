-- ===== src/Loop/CountTests.antt =====
-- Runs of the calls for the descriptors of an event loop, on concrete descriptors.
use kknet.Prelude.{pos, negsuc, arith, ◌≡◌, refl, List, [], ◌∷◌, length}
use kknet.Poll.Handler.{EventType}
use kknet.Poll.Select.{find, add_fd, set_event, delete_event, delete_fd, assign, erase, at}
use kknet.Loop.Descriptors.{
  Call, adds, removes, clears, sets, deletes, delete_all_event, step, run, new,
}
use kknet.Loop.Counted.{IsCounted, run-new}

-- A connection gets descriptor 7 between those of the loop, waits to read and to write, and goes.
abbrev calls : List Call
calls =
    adds 7 2
    ∷ sets 7 EventType.read
    ∷ sets 7 EventType.write
    ∷ deletes 7 EventType.write
    ∷ clears 7
    ∷ adds 4 3
    ∷ removes 7
    ∷ []

counts : (run (new (negsuc 8) 77 3 5) calls).fdnums ≡ pos 2
unfolding run new step
counts = refl

entries : length (run (new (negsuc 8) 77 3 5) calls).poll.events ≡ 3
unfolding run new step delete_all_event add_fd set_event delete_event delete_fd assign erase at find
entries = refl

-- A descriptor that is removed twice is counted twice, and the count is then negative.
removed_twice : (run (new (pos 0) 1 3 4) (removes 4 ∷ removes 4 ∷ [])).fdnums ≡ negsuc 0
unfolding run new step
removed_twice = refl

run-new_example : IsCounted (run (new (negsuc 8) 77 3 5) calls)
unfolding new run step delete_all_event add_fd set_event delete_event delete_fd assign erase at find
run-new_example =
    run-new (negsuc 8) 77 3 5 calls (omega arith)
      (refl, ((_, refl), ((_, refl), ((_, refl), ((_, refl), (refl, ((_, refl), tt)))))))
