-- ===== src/Wheel/Tests.antt =====
-- A wheel of three nodes.
use kknet.Prelude.{◌≡◌, refl, true, some, List, [], ◌∷◌}
use kknet.Wheel.Defs.{TimeWheel, Call, pushes, ticks, run, set_max_num}
use kknet.Wheel.Defs

abbrev wheel : TimeWheel
wheel = record { max_num = 3; has_current = true; ring = (5 ∷ []) ∷ [] ∷ (6 ∷ []) ∷ [] }

abbrev calls : List Call
calls = ticks ∷ pushes 5 ∷ ticks ∷ ticks ∷ []

-- With a current node, which no operation of the class sets.
left_after_three :
    run wheel (pushes 9 ∷ calls)
    ≡ some (record { max_num = 3; has_current = true; ring = [] ∷ (5 ∷ []) ∷ [] ∷ [] })
unfolding run Defs.push Defs.on_time Defs.insert_first Defs.insert Defs.contains Defs.advance
    Defs.empty_first
left_after_three = refl
