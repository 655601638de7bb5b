-- ===== src/Thread/Defs.antt =====
-- A Thread object, the ThreadData that it makes, and the thread that threadFunc is. A step is one
-- access to the ThreadData.
use kknet.Prelude.{ℕ, Bool, true, false, Option, none, some, List, [], ◌∷◌}

pub data Status : Type 0 where
  k_stop k_running k_joined : Status

-- Where the caller is: before `start`, in the loop that waits for kRunning, behind it, and behind
-- `start`; in `pthread_join`, and behind `join`.
pub data Caller : Type 0 where
  outside spins reads_tid started joins joined : Caller

-- Where the new thread is: not there, before each of the three writes of threadFunc, in `func()`,
-- and at its end, where it has deleted the ThreadData.
pub data Callee : Type 0 where
  absent marks writes_tid marks_again calls ended : Callee

-- `data` is what `threadData_` points to, `none` when it has been deleted. `pointer` says whether
-- `threadData_` is set. `tid_` is none before it has been written.
pub record Thread : Type 0 where
  pub caller : Caller
  pub callee : Callee
  pub status : Option Status
  pub pointer : Bool
  pub tid : Option ℕ

unfoldable pub init : Thread
init = record {
  caller = Caller.outside;
  callee = Callee.absent;
  status = none;
  pointer = false;
  tid = none;
}

-- A step that cannot happen now, the use of deleted data or of a null pointer, or the next state.
pub data Result : Type 0 where
  waits faults : Result
  goes : Thread → Result

-- The loop of `start`: it goes round until the status is kRunning.
abbrev pub test : Thread → Option Status → Result
test t none = faults
test t (some Status.k_stop) = waits
test t (some Status.k_running) = goes (record t { caller = Caller.reads_tid })
test t (some Status.k_joined) = waits

-- A use of the ThreadData that needs it to be there.
abbrev pub with_data : Option Status → Thread → Result
with_data none t = faults
with_data (some s) t = goes t

-- `join`: a null `threadData_` is dereferenced.
abbrev pub join_from : Thread → Bool → Result
join_from t false = faults
join_from t true =
    with_data t.status (record t { caller = Caller.joins; status = some Status.k_joined })

abbrev pub join_ends : Thread → Callee → Result
join_ends t Callee.ended = goes (record t { caller = Caller.joined; pointer = false })
join_ends t _ = waits

-- What the caller does next. `created` says whether pthread_create makes the thread.
unfoldable pub caller_step : Bool → Thread → Caller → Result
caller_step false t Caller.outside =
    goes (record t { caller = Caller.started; status = none; pointer = false })
caller_step true t Caller.outside = goes (record t {
  caller = Caller.spins;
  callee = Callee.marks;
  status = some Status.k_stop;
  pointer = true;
})
caller_step c t Caller.spins = test t t.status
caller_step c t Caller.reads_tid = with_data t.status (record t { caller = Caller.started })
caller_step c t Caller.started = join_from t t.pointer
caller_step c t Caller.joins = join_ends t t.callee
caller_step c t Caller.joined = waits

-- What the new thread does next. `self` is its `tid`. It ends when its function returns.
unfoldable pub callee_step : ℕ → Thread → Callee → Result
callee_step self t Callee.absent = waits
callee_step self t Callee.marks =
    with_data t.status (record t { callee = Callee.writes_tid; status = some Status.k_running })
callee_step self t Callee.writes_tid =
    with_data t.status (record t { callee = Callee.marks_again; tid = some self })
callee_step self t Callee.marks_again =
    with_data t.status (record t { callee = Callee.calls; status = some Status.k_running })
callee_step self t Callee.calls =
    with_data t.status (record t { callee = Callee.ended; status = none })
callee_step self t Callee.ended = waits

pub data Actor : Type 0 where
  caller callee : Actor

unfoldable pub step : Bool → ℕ → Thread → Actor → Result
unfolding caller_step callee_step
step created self t caller = caller_step created t t.caller
step created self t callee = callee_step self t t.callee

abbrev pub then_run : (Thread → Result) → Result → Result
then_run f waits = waits
then_run f faults = faults
then_run f (goes t) = f t

unfoldable pub run : Bool → ℕ → Thread → List Actor → Result
run created self t [] = goes t
run created self t (a ∷ rest) = then_run (λ t'. run created self t' rest) (step created self t a)
