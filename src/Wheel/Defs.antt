-- ===== src/Wheel/Defs.antt =====
-- A TimeWheel and its operations. An entry stands for its address. The list of the nodes is
-- circular, so the ring is listed from the current node on, and from the head before there is one.
-- `has_current` says whether `currentNode_` has been given a value. No operation of the class gives it
-- a first one.
use kknet.Prelude.{
  ℕ, ◌-◌, Bool, false, ◌||◌, Option, none, some, List, [], ◌∷◌, ◌++◌, ◌==◌, if◌then◌else◌,
  replicate, ◌>>=◌,
}

pub record TimeWheel : Type 0 where
  pub max_num : ℕ
  pub has_current : Bool
  pub ring : List (List ℕ)

unfoldable pub contains : ℕ → List ℕ → Bool
contains e [] = false
contains e (x ∷ xs) = (e == x) || contains e xs

unfoldable pub insert : ℕ → List ℕ → List ℕ
insert e s = if contains e s then s else e ∷ s

-- The ring of `num` empty nodes, or of one where `num` is 0.
unfoldable pub set_max_num : ℕ → TimeWheel
set_max_num num = record { max_num = num; has_current = false; ring = [] ∷ replicate (num - 1) [] }

unfoldable pub insert_first : ℕ → List (List ℕ) → List (List ℕ)
insert_first e [] = []
insert_first e (s ∷ ss) = insert e s ∷ ss

-- `currentNode_->next_` becomes the current node.
unfoldable pub advance {ℓ} : {A : Type ℓ} → List A → List A
advance [] = []
advance (s ∷ ss) = ss ++ (s ∷ [])

unfoldable pub empty_first : List (List ℕ) → List (List ℕ)
empty_first [] = []
empty_first ([] ∷ ss) = [] ∷ ss
empty_first ((e ∷ s) ∷ ss) = [] ∷ ss

-- A fault where `currentNode_` has no value.
unfoldable pub push : TimeWheel → ℕ → Option TimeWheel
push w e = if w.has_current then some (record w { ring = insert_first e w.ring }) else none

unfoldable pub on_time : TimeWheel → Option TimeWheel
on_time w = if w.has_current then some (record w { ring = empty_first (advance w.ring) }) else none

pub data Call : Type 0 where
  pushes : ℕ → Call
  ticks : Call

unfoldable pub run : TimeWheel → List Call → Option TimeWheel
run w [] = some w
run w (pushes e ∷ cs) = push w e >>= λ w'. run w' cs
run w (ticks ∷ cs) = on_time w >>= λ w'. run w' cs
