-- ===== src/Timer/RequestTests.antt =====
-- Timers that are asked for from another thread.
use kknet.Prelude.{ℕ, negsuc, pos, ◌≡◌, refl, false, true, none, some, [], ◌∷◌, ◌>>=◌}
use kknet.Timer.Queue.{
  insert, insert_entry, erase_entry, contains, add_timer_in_loop, split_before, deactivate,
  get_expired, restart, reset_each, rearm, reset, commands, run_each, handle_read,
}
use kknet.Timer.Clock.{IsWait, IsArming, how_much_time_from_now, how_much_time_from_now-IsArming}
use kknet.Timer.Requests.{
  Requests, adds, new, perform, run_in_loop, run_tasks, start_timer, timer_id, add_timer, never,
  run_at, run_after, run_every,
}

abbrev idle : Requests
idle = record { queue = new (λ a. none); tasks = []; num = 0 }

-- `runAfter` of another thread leaves a task.
leaves_task : (run_after false idle 8 100 50 1 >>= λ r. some r.1.tasks) ≡ some (adds 8 ∷ [])
unfolding run_after run_at add_timer start_timer run_in_loop timer_id new
leaves_task = refl

-- In the loop's thread the timer is in the queue at once, and in the one after an interval too.
in_queue :
    (run_every true idle 8 100 (record { positive = true; micros = 50 }) 1 >>= λ r.
    some r.1.queue.timers)
    ≡ some ((150, 8) ∷ [])
unfolding run_every add_timer start_timer run_in_loop timer_id new perform add_timer_in_loop insert
    insert_entry
in_queue = refl

-- The loop runs the task, and the timer expires and is deleted, before `addTimer` reads it for its
-- result: it uses a deleted timer.
late :
    (start_timer false idle 8 1 100 never >>= λ r. run_tasks r r.tasks >>= λ r'.
    handle_read (λ c. []) r'.queue 200 >>= λ q. timer_id (record r' { queue = q }) 8)
    ≡ none
unfolding start_timer run_in_loop run_tasks perform add_timer_in_loop insert insert_entry timer_id
    new handle_read get_expired split_before deactivate erase_entry run_each commands reset
    reset_each contains restart rearm
late = refl

-- Without the read there is a result.
ends :
    (start_timer false idle 8 1 100 never >>= λ r.
    run_tasks r r.tasks >>= λ r'. handle_read (λ c. []) r'.queue 200 >>= λ q. some q.timers)
    ≡ some []
unfolding start_timer run_in_loop run_tasks perform add_timer_in_loop insert insert_entry new
    handle_read get_expired split_before deactivate erase_entry run_each commands reset reset_each
    contains restart rearm
ends = refl

-- A time that has passed arms the descriptor for 100 microseconds.
at_least :
    how_much_time_from_now
      (record { micro_seconds_since_epoch = pos 900 })
      (record { micro_seconds_since_epoch = pos 20 })
    ≡ record { tv_sec = pos 0; tv_nsec = pos 100000 }
unfolding how_much_time_from_now
at_least = refl

how_much_time_from_now-IsArming_example :
    (n : ℕ) × IsWait n (negsuc 2499999) (pos 20)
    × IsArming n (
        how_much_time_from_now
          (record { micro_seconds_since_epoch = negsuc 2499999 })
          (record { micro_seconds_since_epoch = pos 20 }))
how_much_time_from_now-IsArming_example =
    how_much_time_from_now-IsArming (record { micro_seconds_since_epoch = negsuc 2499999 })
      (record { micro_seconds_since_epoch = pos 20 })
