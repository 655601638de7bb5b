-- ===== src/Thread/Race.antt =====
-- `start` of a Thread, when its function runs on and when it returns.
use kknet.Prelude.{ℕ, Bool, true, ◌≡◌, ◌≢◌, refl, sym, ◌∙◌, ◌⊎◌, inl, inr, none, some, [], ◌∷◌}
use kknet.Thread.Defs.{
  Status, Caller, Callee, Thread, Result, waits, faults, goes, test, with_data, join_ends,
  caller_step, callee_step, Actor, caller, callee, step, run,
}

-- The caller is in `start` and has not seen that the thread runs, or has not read its `tid`.
abbrev pub IsStarting : Caller → Type 0
IsStarting c = (c ≡ Caller.spins) ⊎ (c ≡ Caller.reads_tid)

-- When the function returns while the caller is still in `start`, the next step of the caller uses
-- data that the thread has deleted.
pub ended_faults :
    (created : Bool) (self : ℕ) (t : Thread)
    → t.callee ≡ Callee.calls
    → IsStarting t.caller
    → (s : Status) → t.status ≡ some s
    → run created self t (callee ∷ caller ∷ []) ≡ faults
unfolding run step callee_step caller_step
ended_faults created self t e (inl c) s h = rw (e, h, c) refl
ended_faults created self t e (inr c) s h = rw (e, h, c) refl

-- The thread has been made, and its function has not returned.
pub record IsLive (t : Thread) : Type 0 where
  pub status : (s : Status) × (t.status ≡ some s)
  pub pointer : t.pointer ≡ true
  pub inside : t.caller ≢ Caller.outside
  pub runs : t.callee ≢ Callee.ended

-- The step cannot happen now, or leads to such a state or to the end of the function.
abbrev pub Goes : Result → Type 0
Goes r = (r ≡ waits) ⊎ ((t : Thread) × (r ≡ goes t) × (IsLive t ⊎ (t.callee ≡ Callee.ended)))

test-Goes : (t : Thread) (s : Status) → t.status ≡ some s → IsLive t → Goes (test t t.status)
test-Goes t Status.k_stop e v = rw e (inl refl)
test-Goes t Status.k_joined e v = rw e (inl refl)
test-Goes t Status.k_running e v = inr (
  record t { caller = Caller.reads_tid },
  rw e refl,
  inl (record { status = v.status; pointer = v.pointer; inside = λ z. cc z; runs = v.runs }),
)

join_ends-Goes : (t : Thread) (c : Callee) → t.callee ≡ c → IsLive t → Goes (join_ends t c)
join_ends-Goes t Callee.absent e v = inl refl
join_ends-Goes t Callee.marks e v = inl refl
join_ends-Goes t Callee.writes_tid e v = inl refl
join_ends-Goes t Callee.marks_again e v = inl refl
join_ends-Goes t Callee.calls e v = inl refl
join_ends-Goes t Callee.ended e v = absurd (v.runs e)

caller_step-Goes :
    (created : Bool) (t : Thread) (c : Caller)
    → t.caller ≡ c
    → IsLive t
    → Goes (caller_step created t c)
unfolding caller_step
caller_step-Goes created t Caller.outside e v = absurd (v.inside e)
caller_step-Goes created t Caller.spins e v = test-Goes t v.status.0 v.status.1 v
caller_step-Goes created t Caller.reads_tid e v = inr (
  record t { caller = Caller.started },
  rw v.status.1 refl,
  inl (record { status = v.status; pointer = v.pointer; inside = λ z. cc z; runs = v.runs }),
)
caller_step-Goes created t Caller.started e v = inr (
  record t { caller = Caller.joins; status = some Status.k_joined },
  rw (v.pointer, v.status.1) refl,
  inl (record {
    status = (Status.k_joined, refl);
    pointer = v.pointer;
    inside = λ z. cc z;
    runs = v.runs;
  }),
)
caller_step-Goes created t Caller.joins e v = join_ends-Goes t t.callee refl v
caller_step-Goes created t Caller.joined e v = inl refl

-- The new thread writes to its data, which is there.
writes-Goes :
    (t t' : Thread)
    → IsLive t
    → ((s : Status) × (t'.status ≡ some s))
    → t'.pointer ≡ t.pointer
    → t'.caller ≡ t.caller
    → t'.callee ≢ Callee.ended
    → Goes (with_data t.status t')
writes-Goes t t' v s p c n = inr (
  t',
  rw v.status.1 refl,
  inl (record {
    status = s;
    pointer = p ∙ v.pointer;
    inside = λ z. v.inside (sym c ∙ z);
    runs = n;
  }),
)

callee_step-Goes :
    (self : ℕ) (t : Thread) (c : Callee) → t.callee ≡ c → IsLive t → Goes (callee_step self t c)
unfolding callee_step
callee_step-Goes self t Callee.absent e v = inl refl
callee_step-Goes self t Callee.marks e v =
    writes-Goes t (record t { callee = Callee.writes_tid; status = some Status.k_running }) v
      (Status.k_running, refl) refl refl (λ z. cc z)
callee_step-Goes self t Callee.writes_tid e v =
    writes-Goes t (record t { callee = Callee.marks_again; tid = some self }) v v.status refl refl
      (λ z. cc z)
callee_step-Goes self t Callee.marks_again e v =
    writes-Goes t (record t { callee = Callee.calls; status = some Status.k_running }) v
      (Status.k_running, refl) refl refl (λ z. cc z)
callee_step-Goes self t Callee.calls e v =
    inr (record t { callee = Callee.ended; status = none }, rw v.status.1 refl, inr refl)
callee_step-Goes self t Callee.ended e v = absurd (v.runs e)

-- A thread that has been made and whose function has not returned: no step of it or of its caller
-- uses data that is not there, and each that can happen leads to such a state or to the end of the
-- function.
pub step-Goes :
    (created : Bool) (self : ℕ) (t : Thread) (a : Actor) → IsLive t → Goes (step created self t a)
unfolding step
step-Goes created self t caller v = caller_step-Goes created t t.caller refl v
step-Goes created self t callee v = callee_step-Goes self t t.callee refl v
