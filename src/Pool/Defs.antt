-- ===== src/Pool/Defs.antt =====
-- An EventloopPool and its operations. A loop stands for its address, and the threads that run
-- the loops are not part of it.
use kknet.Prelude.{
  ℕ, zero, suc, ◌-◌, Bool, Option, some, List, [], ◌∷◌, ◌++◌, ltb, leb, if◌then◌else◌, get_elem?,
  ◌>>=◌,
}

abbrev pub max_round_robin_num : ℕ
max_round_robin_num = 10

pub record EventloopPool : Type 0 where
  pub loops : List ℕ
  pub num : ℕ
  pub robin_num : ℕ

unfoldable pub new : ℕ → EventloopPool
new loop = record { loops = loop ∷ []; num = 1; robin_num = 0 }

unfoldable pub set_thread_num : EventloopPool → ℕ → EventloopPool
set_thread_num p n = record p { num = n }

-- `made i` is the loop that the `i`-th thread makes, and `n` the threads still to start.
unfoldable pub start_from : (ℕ → ℕ) → ℕ → ℕ → List ℕ → List ℕ
start_from made i zero loops = loops
start_from made i (suc n) loops = start_from made (suc i) n (loops ++ (made i ∷ []))

unfoldable pub start : (ℕ → ℕ) → EventloopPool → EventloopPool
start made p = record p { loops = start_from made 1 (p.num - 1) p.loops }

-- `fd_nums` is `getFdNums` of a loop.
abbrev pub compare : (ℕ → ℕ) → ℕ → ℕ → Bool
compare fd_nums a b = ltb (fd_nums b) (fd_nums a)

-- `sort` stands for `std::sort` with a comparison.
module _ (sort : (ℕ → ℕ → Bool) → List ℕ → List ℕ) where
  unfoldable pub choose_busy : EventloopPool → (ℕ → ℕ) → Option (ℕ × EventloopPool)
  choose_busy p fd_nums =
      let sorted = sort (compare fd_nums) p.loops in
      get_elem? sorted 0 >>= λ (l : ℕ). some (l, record p { loops = sorted })

  unfoldable pub choose_robin : EventloopPool → Option (ℕ × EventloopPool)
  choose_robin p =
      let robin = if leb p.num p.robin_num then 0 else p.robin_num in
      get_elem? p.loops robin >>= λ (l : ℕ). some (l, record p { robin_num = robin })

  unfoldable pub get_next_event : EventloopPool → (ℕ → ℕ) → Option (ℕ × EventloopPool)
  get_next_event p fd_nums = get_elem? p.loops 0 >>= λ (first : ℕ).
      if ltb max_round_robin_num (fd_nums first) then choose_busy p fd_nums else choose_robin p

  -- One call after the other, each with the numbers that the loops have by then.
  unfoldable pub choices : EventloopPool → List (ℕ → ℕ) → Option (List ℕ × EventloopPool)
  choices p [] = some ([], p)
  choices p (f ∷ fs) =
      get_next_event p f >>= λ (l, p'). choices p' fs >>= λ (ls, p''). some (l ∷ ls, p'')
