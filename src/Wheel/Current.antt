-- ===== src/Wheel/Current.antt =====
-- Whether a TimeWheel has a current node.
use kknet.Prelude.{ℕ, ◌≡◌, refl, none, List, ◌∷◌}
use kknet.Wheel.Defs.{set_max_num, push, on_time, Call, pushes, ticks, run}

-- The wheel that `setMaxNum` makes has no current node: the first call of `push` or `onTime` is a
-- fault, whichever number of nodes it has and whatever follows.
pub set_max_num-faults :
    (num : ℕ) (c : Call) (cs : List Call) → run (set_max_num num) (c ∷ cs) ≡ none
unfolding run push on_time set_max_num
set_max_num-faults num (pushes e) cs = refl
set_max_num-faults num ticks cs = refl
