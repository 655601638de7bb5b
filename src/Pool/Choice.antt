-- ===== src/Pool/Choice.antt =====
-- Which loop `getNextEvent` chooses.
use kknet.Prelude.{
  ℕ, zero, suc, ◌+◌, ◌-◌, ◌≤◌, ◌<◌, ◌≡◌, refl, sym, ap, subst, ◌∙◌, ◌⊎◌, inl, inr, Bool, true,
  false, some, List, [], ◌∷◌, ◌++◌, leb, if◌then◌else◌, get_elem?, All, arith, length,
  length-append, replicate, le_or_lt, ltb-true, ltb-false,
}
use mathlib.Core.List.{Permᴰ}
use mathlib.Core.List.Permᴰ.{nil, cons, swap, trans}
use kknet.Pool.Defs.{
  EventloopPool, max_round_robin_num, new, set_thread_num, start_from, start, compare, choose_busy,
  choose_robin, get_next_event, choices,
}

start_from-length :
    (made : ℕ → ℕ) (i n : ℕ) (xs : List ℕ) → length (start_from made i n xs) ≡ n + length xs
unfolding start_from
start_from-length made i zero xs = omega arith
start_from-length made i (suc n) xs =
    start_from-length made (suc i) n (xs ++ (made i ∷ []))
    ∙ omega (arith, length-append xs (made i ∷ []))

-- A pool for `n` threads has `n` loops, and one loop for `n = 0`.
pub start-length :
    (made : ℕ → ℕ) (loop n : ℕ)
    → length (start made (set_thread_num (new loop) n)).loops ≡ n - 1 + 1
unfolding start set_thread_num new
start-length made loop n = start_from-length made 1 (n - 1) (loop ∷ [])

-- What `std::sort` promises: the elements of the list in an order where none stands behind one
-- that it has to stand before.
pub record Sorts (sort : (ℕ → ℕ → Bool) → List ℕ → List ℕ) : Type 0 where
  pub permutes : (lt : ℕ → ℕ → Bool) (xs : List ℕ) → Permᴰ (sort lt xs) xs
  pub ordered :
      (f : ℕ → ℕ) (xs : List ℕ) (y : ℕ) (ys : List ℕ)
      → sort (compare f) xs ≡ y ∷ ys
      → All (λ (z : ℕ). compare f z y ≡ false) ys

pub All-perm : (P : ℕ → Type 0) {xs ys : List ℕ} → Permᴰ xs ys → All P xs → All P ys
All-perm P nil a = a
All-perm P (cons e p) a = (subst P e a.0, All-perm P p a.1)
All-perm P (swap e f) a = (subst P f a.1.0, (subst P e a.0, a.1.1))
All-perm P (trans p q) a = All-perm P q (All-perm P p a)

robin_zero : (b : Bool) (r : ℕ) → r ≡ 0 → (if b then 0 else r) ≡ 0
robin_zero true r h = refl
robin_zero false r h = h

List-cases : (xs : List ℕ) → (xs ≡ []) ⊎ ((y : ℕ) × (ys : List ℕ) × (xs ≡ y ∷ ys))
List-cases [] = inl refl
List-cases (y ∷ ys) = inr (y, ys, refl)

none_above :
    (f : ℕ → ℕ) (l : ℕ) (ys : List ℕ)
    → All (λ (z : ℕ). compare f z l ≡ false) ys
    → All (λ (z : ℕ). f z ≤ f l) ys
none_above f l [] a = tt
none_above f l (y ∷ ys) a = (ground arith, none_above f l ys a.1)

-- The loop `l` for the pool `p`, whose first loop is `first`, and the pool after the call.
pub record Chosen (f : ℕ → ℕ) (first : ℕ) (p : EventloopPool) (l : ℕ) (p' : EventloopPool)
    : Type 0 where
  pub few : f first ≤ max_round_robin_num → (l ≡ first) × (p' ≡ p)
  pub many :
      max_round_robin_num < f first
      → (get_elem? p'.loops 0 ≡ some l)
        × Permᴰ p'.loops p.loops
        × All (λ (m : ℕ). f m ≤ f l) p.loops
  pub robin : p'.robin_num ≡ 0

module _ (sort : (ℕ → ℕ → Bool) → List ℕ → List ℕ) (sorts : Sorts sort) where
  choose_robin-first :
      (p : EventloopPool) (first : ℕ) (rest : List ℕ)
      → p.loops ≡ first ∷ rest
      → p.robin_num ≡ 0
      → choose_robin sort p ≡ some (first, p)
  unfolding choose_robin
  choose_robin-first p first rest e r = rw (robin_zero (leb p.num p.robin_num) p.robin_num r) (
      rw e (ap (λ (n : ℕ). some (first, record p { loops = first ∷ rest; robin_num = n })) (sym r)))

  choose_busy-busiest :
      (p : EventloopPool) (f : ℕ → ℕ) (first : ℕ) (rest : List ℕ)
      → p.loops ≡ first ∷ rest
      → (l : ℕ) × (p' : EventloopPool) × (choose_busy sort p f ≡ some (l, p'))
        × (get_elem? p'.loops 0 ≡ some l)
        × Permᴰ p'.loops p.loops
        × All (λ (m : ℕ). f m ≤ f l) p.loops
        × (p'.robin_num ≡ p.robin_num)
  unfolding choose_busy
  choose_busy-busiest p f first rest e =
      let perm = sorts.permutes (compare f) p.loops in
      elim (List-cases (sort (compare f) p.loops)) [
        | inl nothing ↦
            absurd
              (All-perm (λ (n : ℕ). ⊥)
                (subst (λ (zs : List ℕ). Permᴰ zs (first ∷ rest)) nothing
                  (subst (λ (zs : List ℕ). Permᴰ (sort (compare f) p.loops) zs) e perm))
                tt).0
        | inr (y, ys, found) ↦ (
          y,
          record p { loops = sort (compare f) p.loops },
          rw found refl,
          rw found refl,
          perm,
          All-perm (λ (m : ℕ). f m ≤ f y) (subst (λ (zs : List ℕ). Permᴰ zs p.loops) found perm)
              (omega arith, none_above f y ys (sorts.ordered f p.loops y ys found)),
          refl,
        )
      ]

  -- When `std::sort` keeps its promise, a pool has a loop and `robinNum_` is 0, as a new pool has
  -- it, `getNextEvent` returns a loop and leaves it 0. When the first loop has at most ten
  -- descriptors, the call returns that loop and changes nothing. When it has more, the call
  -- reorders the loops, and returns one that has at least as many descriptors as every other.
  pub get_next_event-Chosen :
      (p : EventloopPool) (f : ℕ → ℕ) (first : ℕ) (rest : List ℕ)
      → p.loops ≡ first ∷ rest
      → p.robin_num ≡ 0
      → (l : ℕ) × (p' : EventloopPool) × (get_next_event sort p f ≡ some (l, p'))
        × Chosen f first p l p'
  unfolding get_next_event
  get_next_event-Chosen p f first rest e r = elim (le_or_lt (f first) max_round_robin_num) [
    | inl le ↦ (
      first,
      p,
      rw (ap (λ (xs : List ℕ). get_elem? xs 0) e, ltb-false max_round_robin_num (f first) le)
          (choose_robin-first p first rest e r),
      record { few = λ h. (refl, refl); many = λ h. absurd (omega arith); robin = r },
    )
    | inr lt ↦
        let (l, p', out, head, perm, most, same) = choose_busy-busiest p f first rest e in
        (
          l,
          p',
          rw (ap (λ (xs : List ℕ). get_elem? xs 0) e, ltb-true max_round_robin_num (f first) lt)
              out,
          record {
            few = λ h. absurd (omega arith);
            many = λ h. (head, perm, most);
            robin = same ∙ r;
          },
        )
  ]

  -- While `robinNum_` is 0 and the first loop has at most ten descriptors at each call, every call
  -- returns that loop: the other threads' loops get nothing.
  pub choices-first :
      (p : EventloopPool) (fs : List (ℕ → ℕ)) (first : ℕ) (rest : List ℕ)
      → p.loops ≡ first ∷ rest
      → p.robin_num ≡ 0
      → All (λ (f : ℕ → ℕ). f first ≤ max_round_robin_num) fs
      → choices sort p fs ≡ some (replicate (length fs) first, p)
  unfolding choices get_next_event
  choices-first p [] first rest e r a = refl
  choices-first p (f ∷ fs) first rest e r a =
      rw
        (
          ap (λ (xs : List ℕ). get_elem? xs 0) e,
          ltb-false max_round_robin_num (f first) a.0,
          choose_robin-first p first rest e r,
        )
        (rw (choices-first p fs first rest e r a.1) refl)
