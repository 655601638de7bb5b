-- ===== src/Poll/Tests.antt =====
-- Runs of a PollSelect, and the theorems at concrete tables.
use kknet.Prelude.{ℕ, ◌≡◌, refl, true, false, some, none, [], ◌∷◌, ◌==◌}
use kknet.Poll.Handler.{EventHandler, handle_events}
use kknet.Poll.Select.{FdEvent, PollSelect, FdSets}
use kknet.Poll.Ready.{marks, empty_sets, IsClear, handle_events-Marked}

abbrev event : ℕ → ℕ → FdEvent
event fd h = record {
  fd = fd;
  read = true;
  write = false;
  error = false;
  close = false;
  handler = h;
}

abbrev two : PollSelect
two = record {
  events = (3, some (event 3 0)) ∷ (5, some (event 5 1)) ∷ [];
  srevents = [];
  nfds = 6;
}

abbrev idle : EventHandler ℕ
idle = record {
  read_callback = some 10;
  write_callback = none;
  error_callback = none;
  close_callback = some 11;
  read = false;
  write = false;
  error = false;
  close = false;
}

-- A `select` that finds descriptor 5 readable.
abbrev five_ready : ℕ → FdSets → ℕ × FdSets
five_ready n s = (1, record { rset = λ fd. fd == 5; wset = λ _. false; eset = λ _. false })

abbrev readable : EventHandler ℕ
readable = record idle { read = true }

handle_events-Marked_example :
    ((handle_events readable).0 ≡ 10 ∷ []) × IsClear (handle_events readable).1
unfolding marks
handle_events-Marked_example =
    handle_events-Marked (five_ready 6 empty_sets).1 two.events 1 idle readable
      (refl, refl, refl, refl)
      (record {
        read = refl;
        write = refl;
        error = refl;
        close = refl;
        read_callback = refl;
        write_callback = refl;
        error_callback = refl;
        close_callback = refl;
      })
