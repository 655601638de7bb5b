-- ===== src/Thread/Tests.antt =====
-- A thread with the `tid` 42.
use kknet.Prelude.{true, ◌≡◌, refl, inl, some, [], ◌∷◌}
use kknet.Thread.Defs.{
  Status, Caller, Callee, Thread, faults, goes, init, caller_step, callee_step, caller, callee,
  step, run,
}
use kknet.Thread.Race.{IsLive, Goes, step-Goes, ended_faults}

-- The thread has written its `tid` and calls its function; the caller has not looked yet.
abbrev quick : Thread
quick = record {
  caller = Caller.spins;
  callee = Callee.calls;
  status = some Status.k_running;
  pointer = true;
  tid = some 42;
}

quick_made : run true 42 init (caller ∷ callee ∷ callee ∷ callee ∷ []) ≡ goes quick
unfolding run init step caller_step callee_step
quick_made = refl

quick-IsLive : IsLive quick
quick-IsLive = record {
  status = (Status.k_running, refl);
  pointer = refl;
  inside = λ z. cc z;
  runs = λ z. cc z;
}

step-Goes_example : Goes (step true 42 quick callee)
step-Goes_example = step-Goes true 42 quick callee quick-IsLive

starts_late : run true 42 quick (callee ∷ caller ∷ []) ≡ faults
starts_late = ended_faults true 42 quick refl (inl refl) Status.k_running refl

-- `join` after the function has returned.
joins_late : run true 42 quick (caller ∷ caller ∷ callee ∷ caller ∷ []) ≡ faults
unfolding run step caller_step callee_step
joins_late = refl
