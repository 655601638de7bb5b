-- ===== src/Timer/Queue.antt =====
-- A TimerQueue. A Timer* is a number, `store` is the heap of the timers (a deleted one is `none`),
-- and `none` as a result is the use of a deleted timer. Times are microseconds since the epoch.
-- `armed` is the expiration that `resetTimerfd` set last.
use kknet.Prelude.{
  ℕ, ◌+◌, ◌-◌, ◌^◌, Bool, true, false, not, ◌&&◌, ◌||◌, Option, none, some, List, [], ◌∷◌, ltb,
  ◌==◌, if◌then◌else◌, ◌>>=◌,
}

-- What the code uses of an interval in seconds, a `double`: whether it is positive, and the
-- microseconds that `addTime` adds for it.
pub record Interval : Type 0 where
  pub positive : Bool
  pub micros : ℕ

pub record Timer : Type 0 where
  pub callback : ℕ
  pub time : ℕ
  pub interval : Interval
  pub sequence : ℕ

-- `repeat_(interval>0.0)`
abbrev pub repeat : Timer → Bool
repeat t = t.interval.positive

-- `Timestamp::invalid()` is the time 0.
unfoldable pub restart : Timer → ℕ → Timer
restart t now =
    if repeat t then record t { time = now + t.interval.micros } else record t { time = 0 }

abbrev pub Entry : Type 0
Entry = ℕ × ℕ

pub record TimerQueue : Type 0 where
  pub store : ℕ → Option Timer
  pub timers : List Entry
  pub active : List (ℕ × ℕ)
  pub calling : Bool
  pub canceling : List (ℕ × ℕ)
  pub armed : Option ℕ

-- The order of std::pair<Timestamp, Timer*>.
abbrev pub less : Entry → Entry → Bool
less (t, a) (u, b) = ltb t u || ((t == u) && ltb a b)

abbrev pub same : ℕ × ℕ → ℕ × ℕ → Bool
same (t, a) (u, b) = (t == u) && (a == b)

-- std::set of pairs: `insert` and `erase` in order, and `find`.
unfoldable pub insert_entry : Entry → List Entry → List Entry
insert_entry e [] = e ∷ []
insert_entry e (x ∷ xs) =
    if less e x then e ∷ x ∷ xs else if same e x then x ∷ xs else x ∷ insert_entry e xs

unfoldable pub erase_entry : Entry → List Entry → List Entry
erase_entry e [] = []
erase_entry e (x ∷ xs) = if same e x then xs else x ∷ erase_entry e xs

unfoldable pub contains : ℕ × ℕ → List (ℕ × ℕ) → Bool
contains e [] = false
contains e (x ∷ xs) = if same e x then true else contains e xs

-- `*timer` and `delete timer`
abbrev pub put : ℕ → Option Timer → (ℕ → Option Timer) → ℕ → Option Timer
put a t store b = if b == a then t else store b

abbrev pub is_earlier : ℕ → List Entry → Bool
is_earlier when [] = true
is_earlier when ((t, a) ∷ xs) = ltb when t

unfoldable pub insert : TimerQueue → ℕ → Option (Bool × TimerQueue)
insert q a = q.store a >>= λ t. some (
  is_earlier t.time q.timers,
  record q {
    timers = insert_entry (t.time, a) q.timers;
    active = insert_entry (a, t.sequence) q.active;
  },
)

-- `addTimer` has made the timer at the address `a`.
unfoldable pub add_timer_in_loop : TimerQueue → ℕ → Option TimerQueue
add_timer_in_loop q a = insert q a >>= λ r.
    q.store a >>= λ t. some (if r.0 then record r.1 { armed = some t.time } else r.1)

unfoldable pub cancel_in_loop : TimerQueue → ℕ × ℕ → Option TimerQueue
cancel_in_loop q id =
    if contains id q.active
    then (q.store id.0 >>= λ t. some (record q {
      timers = erase_entry (t.time, id.0) q.timers;
      store = put id.0 none q.store;
      active = erase_entry id q.active;
    }))
    else if q.calling
    then some (record q { canceling = insert_entry id q.canceling })
    else some q

-- `timers_.lower_bound(sentry)`: what stands before it, and the rest.
unfoldable pub split_before : Entry → List Entry → List Entry × List Entry
split_before s [] = ([], [])
split_before s (x ∷ xs) =
    let rest = split_before s xs in if less x s then (x ∷ rest.0, rest.1) else ([], x ∷ xs)

abbrev pub uintptr_max : ℕ
uintptr_max = 2 ^ 64 - 1

-- The loop of `getExpired` that takes the expired timers out of `activeTimers_`.
unfoldable pub deactivate : (ℕ → Option Timer) → List Entry → List (ℕ × ℕ) → Option (List (ℕ × ℕ))
deactivate store [] active = some active
deactivate store ((t, a) ∷ xs) active =
    store a >>= λ timer. deactivate store xs (erase_entry (a, timer.sequence) active)

unfoldable pub get_expired : TimerQueue → ℕ → Option (List Entry × TimerQueue)
get_expired q now =
    let parts = split_before (now, uintptr_max) q.timers in
    deactivate q.store parts.0 q.active >>= λ active.
    some (parts.0, record q { timers = parts.1; active = active })

-- The loop of `reset`.
unfoldable pub reset_each : List Entry → ℕ → TimerQueue → Option TimerQueue
reset_each [] now q = some q
reset_each ((t, a) ∷ xs) now q = q.store a >>= λ timer.
    (if repeat timer && not (contains (a, timer.sequence) q.canceling)
      then (insert (record q { store = put a (some (restart timer now)) q.store }) a >>= λ r.
          some r.1)
      else some (record q { store = put a none q.store }))
    >>= λ q'. reset_each xs now q'

-- `nextExpire`, and whether it is valid.
unfoldable pub rearm : TimerQueue → Option TimerQueue
rearm q = elim q.timers [
  | [] ↦ some q
  | e ∷ xs ↦
      q.store e.1 >>= λ t. some (if ltb 0 t.time then record q { armed = some t.time } else q)
]

unfoldable pub reset : TimerQueue → List Entry → ℕ → Option TimerQueue
reset q expired now = reset_each expired now q >>= λ q'. rearm q'

-- What a callback does with the queue, in the thread of the loop: `adds` has made a timer.
pub data Command : Type 0 where
  adds : ℕ → Timer → Command
  cancels : ℕ × ℕ → Command

unfoldable pub command : TimerQueue → Command → Option TimerQueue
command q (adds a t) = add_timer_in_loop (record q { store = put a (some t) q.store }) a
command q (cancels id) = cancel_in_loop q id

unfoldable pub commands : TimerQueue → List Command → Option TimerQueue
commands q [] = some q
commands q (c ∷ cs) = command q c >>= λ q'. commands q' cs

-- The loop of `handleRead`; `body` says what each callback does.
unfoldable pub run_each : (ℕ → List Command) → List Entry → TimerQueue → Option TimerQueue
run_each body [] q = some q
run_each body ((t, a) ∷ xs) q =
    q.store a >>= λ timer. commands q (body timer.callback) >>= λ q'. run_each body xs q'

unfoldable pub handle_read : (ℕ → List Command) → TimerQueue → ℕ → Option TimerQueue
handle_read body q now = get_expired q now >>= λ r.
    run_each body r.0 (record r.1 { calling = true; canceling = [] }) >>= λ q'.
    reset (record q' { calling = false }) r.0 now
