-- ===== src/Timer/Tests.antt =====
-- Runs of a TimerQueue, and the theorems at concrete queues.
use kknet.Prelude.{
  ℕ, ◌≡◌, refl, true, false, some, none, Option, List, [], ◌∷◌, ◌==◌, if◌then◌else◌, arith,
}
use kknet.Timer.Queue.{
  Entry, Timer, TimerQueue, adds, cancels, Command, insert, insert_entry, erase_entry, contains,
  add_timer_in_loop, cancel_in_loop, split_before, deactivate, get_expired, restart, reset_each,
  rearm, reset, command, commands, run_each, handle_read,
}
use kknet.Timer.Members.{In, In-nil, All-In}
use kknet.Timer.Wellformed.{WellFormed, Timed, Numbered}
use kknet.Timer.Kept.{CanCommandAll}
use kknet.Timer.Requests.{Requests, add_timer, cancel, run_tasks, never}
use kknet.Timer.Undone.{Undone, add_timer-cancel}
use kknet.Timer.Rounds.{CanRun, handle_read-WellFormed}
use kknet.Timer.Expired.{Expires, get_expired-Expires}
use kknet.Timer.Renewed.{Resets, reset_each-Resets}
use kknet.Timer.Armed.{IsArmed}
use kknet.Timer.Cancelled.{Cancelled, cancel_in_loop-Cancelled}

abbrev once : ℕ → ℕ → Timer
once when seq = record {
  callback = seq;
  time = when;
  interval = record { positive = false; micros = 0 };
  sequence = seq;
}

abbrev every : ℕ → ℕ → ℕ → Timer
every when micros seq = record {
  callback = seq;
  time = when;
  interval = record { positive = true; micros = micros };
  sequence = seq;
}

-- A single timer at 100 and a repeating one at 200, at the addresses 8 and 9. A third is in the
-- store and not yet in the queue.
abbrev timers : ℕ → Option Timer
timers a =
    if a == 8
    then some (once 100 1)
    else if a == 9
    then some (every 200 50 2)
    else if a == 10
    then some (once 70 3)
    else none

abbrev waiting : TimerQueue
waiting = record {
  store = timers;
  timers = (100, 8) ∷ (200, 9) ∷ [];
  active = (8, 1) ∷ (9, 2) ∷ [];
  calling = false;
  canceling = [];
  armed = some 100;
}

waiting-IsArmed : IsArmed waiting
waiting-IsArmed = record { rises = ((refl, tt), (tt, tt)); early = omega arith }

-- What remains of a queue, by its entries.
abbrev entries : Option TimerQueue → Option (List Entry)
entries none = none
entries (some q) = some q.timers

-- At 250 both timers are due. The repeating one goes on, from 250 on.
repeats : entries (handle_read (λ c. []) waiting 250) ≡ some ((300, 9) ∷ [])
unfolding handle_read get_expired split_before deactivate erase_entry run_each commands reset
    reset_each contains restart insert insert_entry rearm
repeats = refl

-- The callback of the first timer cancels the other one, which was due as well.
cancelled_while_running :
    entries (handle_read (λ c. if c == 1 then cancels (9, 2) ∷ [] else []) waiting 250) ≡ some []
unfolding handle_read get_expired split_before deactivate erase_entry run_each commands command
    cancel_in_loop reset reset_each contains restart insert insert_entry rearm
cancelled_while_running = refl

get_expired-Expires_example :
    (expired : List Entry) × (q' : TimerQueue) × (get_expired waiting 150 ≡ some (expired, q'))
    × Expires 150 waiting expired q'
get_expired-Expires_example =
    get_expired-Expires waiting 150 waiting-IsArmed.rises (omega arith)
      ((once 100 1, refl), ((every 200 50 2, refl), tt))

reset_each-Resets_example :
    (q' : TimerQueue) × (reset_each ((100, 8) ∷ (200, 9) ∷ []) 210 waiting ≡ some q')
    × Resets waiting 210 ((100, 8) ∷ (200, 9) ∷ []) q'
reset_each-Resets_example =
    reset_each-Resets ((100, 8) ∷ (200, 9) ∷ []) 210 waiting ((omega arith, tt), (tt, tt))
      ((once 100 1, refl), ((every 200 50 2, refl), tt)) ((refl, tt), (tt, tt))

waiting-Timed : (e : Entry) → In e waiting.timers → Timed waiting.store e
waiting-Timed e i =
    All-In (Timed waiting.store) e waiting.timers
      (
        record {
          timer = once 100 1;
          stored = refl;
          time = refl;
          valid = omega arith;
          small = omega arith;
        },
        (
          record {
            timer = every 200 50 2;
            stored = refl;
            time = refl;
            valid = omega arith;
            small = omega arith;
          },
          tt,
        ),
      )
      i

waiting-Numbered : (id : ℕ × ℕ) → In id waiting.active → Numbered waiting.store id
waiting-Numbered id i =
    All-In (Numbered waiting.store) id waiting.active
      (
        record { timer = once 100 1; stored = refl; number = refl },
        (record { timer = every 200 50 2; stored = refl; number = refl }, tt),
      )
      i

waiting-WellFormed : WellFormed waiting []
waiting-WellFormed = record {
  rises = waiting-IsArmed.rises;
  active_rises = ((refl, tt), (tt, tt));
  timed = waiting-Timed;
  numbered = waiting-Numbered;
  live = λ e i. In-nil e i;
  small = λ e i. In-nil e i;
  aloft = λ e f i. In-nil e i;
  dormant = λ e id i. In-nil e i;
  distinct = tt;
}

-- The callback of the first timer makes a third one and cancels the second, which was due as well.
abbrev callbacks : ℕ → List Command
callbacks c = if c == 1 then adds 11 (once 400 3) ∷ cancels (9, 2) ∷ [] else []

handle_read-WellFormed_example :
    (q' : TimerQueue) × (handle_read callbacks waiting 250 ≡ some q')
    × IsArmed q'
    × WellFormed q' []
unfolding get_expired split_before deactivate erase_entry CanRun CanCommandAll commands command
    add_timer_in_loop insert insert_entry cancel_in_loop contains
handle_read-WellFormed_example =
    handle_read-WellFormed callbacks waiting 250 waiting-IsArmed waiting-WellFormed (omega arith)
      (((refl, omega arith, omega arith), (tt, tt)), (tt, tt))

add_timer-cancel_example :
    (id : ℕ × ℕ) × (r1 : Requests) × (r2 : Requests) × (r3 : Requests) × (add_timer false
        (record { queue = waiting; tasks = []; num = 3 })
        12
        4
        150
        never
      ≡ some (id, r1))
    × (cancel false r1 id ≡ some r2)
    × (run_tasks r2 r2.tasks ≡ some r3)
    × Undone waiting r3.queue
add_timer-cancel_example =
    add_timer-cancel false (record { queue = waiting; tasks = []; num = 3 }) 12 4 150 never
      waiting-WellFormed refl refl

cancel_in_loop-Cancelled_example :
    (q' : TimerQueue) × (cancel_in_loop waiting (8, 1) ≡ some q')
    × IsArmed q'
    × WellFormed q' []
    × Cancelled waiting (8, 1) q'
cancel_in_loop-Cancelled_example =
    cancel_in_loop-Cancelled waiting (8, 1) [] waiting-IsArmed waiting-WellFormed
