-- ===== src/Pool/Tests.antt =====
-- A pool of three loops, with insertion sort.
use kknet.Prelude.{
  ℕ, ◌+◌, ◌-◌, ◌≤◌, ◌≡◌, refl, subst, inl, inr, Bool, true, false, some, List, [], ◌∷◌,
  if◌then◌else◌, All, arith, length, le_or_lt, ltb-true, ltb-false, ◌*◌,
}
use mathlib.Core.List.{Permᴰ}
use mathlib.Core.List.Permᴰ.{nil, cons, swap, trans}
use mathlib.Core.List.Permᴰ
use kknet.Pool.Defs.{
  EventloopPool, new, set_thread_num, start_from, start, compare, get_next_event, choose_busy,
}
use kknet.Pool.Choice.{Sorts, Chosen, All-perm, get_next_event-Chosen, start-length}

abbrev place : (ℕ → ℕ → Bool) → ℕ → List ℕ → List ℕ
place lt x [] = x ∷ []
place lt x (y ∷ ys) = if lt y x then y ∷ place lt x ys else x ∷ y ∷ ys

abbrev sort : (ℕ → ℕ → Bool) → List ℕ → List ℕ
sort lt [] = []
sort lt (x ∷ xs) = place lt x (sort lt xs)

place-Perm : (lt : ℕ → ℕ → Bool) (x : ℕ) (ys : List ℕ) → Permᴰ (place lt x ys) (x ∷ ys)
place-Perm lt x [] = Permᴰ.refl (x ∷ [])
place-Perm lt x (y ∷ ys) =
    elim (lt y x)
      as (λ (b : Bool). Permᴰ (if b then y ∷ place lt x ys else x ∷ y ∷ ys) (x ∷ y ∷ ys)) [
        | true ↦ trans (cons refl (place-Perm lt x ys)) (swap refl refl)
        | false ↦ Permᴰ.refl (x ∷ y ∷ ys)
      ]

sort-Perm : (lt : ℕ → ℕ → Bool) (xs : List ℕ) → Permᴰ (sort lt xs) xs
sort-Perm lt [] = nil
sort-Perm lt (x ∷ xs) = trans (place-Perm lt x (sort lt xs)) (cons refl (sort-Perm lt xs))

abbrev Falls : (ℕ → ℕ) → List ℕ → Type 0
Falls f [] = Unit
Falls f (y ∷ ys) = All (λ (z : ℕ). f z ≤ f y) ys × Falls f ys

below :
    (f : ℕ → ℕ) (y x : ℕ) (ys : List ℕ)
    → f y ≤ f x
    → All (λ (z : ℕ). f z ≤ f y) ys
    → All (λ (z : ℕ). f z ≤ f x) ys
below f y x [] h a = tt
below f y x (z ∷ ys) h a = (omega (arith, a.0), below f y x ys h a.1)

place-Falls : (f : ℕ → ℕ) (x : ℕ) (ys : List ℕ) → Falls f ys → Falls f (place (compare f) x ys)
place-Falls f x [] h = (tt, tt)
place-Falls f x (y ∷ ys) h = elim (le_or_lt (f y) (f x)) [
  | inl le ↦ rw (ltb-false (f x) (f y) le) ((le, below f y x ys le h.0), h)
  | inr lt ↦ rw (ltb-true (f x) (f y) lt) (
    All-perm (λ (z : ℕ). f z ≤ f y) (Permᴰ.symm (place-Perm (compare f) x ys)) (omega arith, h.0),
    place-Falls f x ys h.1,
  )
]

sort-Falls : (f : ℕ → ℕ) (xs : List ℕ) → Falls f (sort (compare f) xs)
sort-Falls f [] = tt
sort-Falls f (x ∷ xs) = place-Falls f x (sort (compare f) xs) (sort-Falls f xs)

not_before :
    (f : ℕ → ℕ) (y : ℕ) (ys : List ℕ)
    → All (λ (z : ℕ). f z ≤ f y) ys
    → All (λ (z : ℕ). compare f z y ≡ false) ys
not_before f y [] a = tt
not_before f y (z ∷ ys) a = (ltb-false (f y) (f z) a.0, not_before f y ys a.1)

sort-Sorts : Sorts sort
sort-Sorts = record {
  permutes = sort-Perm;
  ordered = λ f xs y ys e. not_before f y ys (subst (Falls f) e (sort-Falls f xs)).0;
}

abbrev pool : EventloopPool
pool = start (λ i. 10 * i) (set_thread_num (new 5) 3)

abbrev few_fds : ℕ → ℕ
few_fds l = l

abbrev many_fds : ℕ → ℕ
many_fds l = 11 + l

pool_loops : pool.loops ≡ 5 ∷ 10 ∷ 20 ∷ []
unfolding start start_from set_thread_num new
pool_loops = refl

start-length_example : length pool.loops ≡ 3 - 1 + 1
start-length_example = start-length (λ i. 10 * i) 5 3

get_next_event-Chosen_example :
    (l : ℕ) × (p' : EventloopPool) × (get_next_event sort pool many_fds ≡ some (l, p'))
    × Chosen many_fds 5 pool l p'
unfolding start start_from set_thread_num new
get_next_event-Chosen_example =
    get_next_event-Chosen sort sort-Sorts pool many_fds 5 (10 ∷ 20 ∷ []) refl refl

busiest :
    get_next_event sort pool many_fds
    ≡ some (20, record { loops = 20 ∷ 10 ∷ 5 ∷ []; num = 3; robin_num = 0 })
unfolding get_next_event choose_busy start start_from set_thread_num new
busiest = refl
