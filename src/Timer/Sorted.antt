-- ===== src/Timer/Sorted.antt =====
-- The order of `timers_`.
use kknet.Prelude.{ℕ, ◌≤◌, ◌≡◌, inl, inr, true, false, Bool-cases, List, [], ◌∷◌, All, arith}
use kknet.Timer.Queue.{Entry, less, same, insert_entry, erase_entry, is_earlier}

-- The entries rise strictly.
abbrev pub Rises : List Entry → Type 0
Rises [] = Unit {0}
Rises (x ∷ xs) = All (λ y. less x y ≡ true) xs × Rises xs

pub less_trans : (x y z : Entry) → less x y ≡ true → less y z ≡ true → less x z ≡ true
less_trans (t, a) (u, b) (v, c) h k = ground arith

less_total : (x y : Entry) → less x y ≡ false → same x y ≡ false → less y x ≡ true
less_total (t, a) (u, b) h k = ground arith

All-less :
    (x y : Entry) (xs : List Entry)
    → less x y ≡ true
    → All (λ z. less y z ≡ true) xs
    → All (λ z. less x z ≡ true) xs
All-less x y [] h a = tt
All-less x y (z ∷ xs) h a = (less_trans x y z h a.0, All-less x y xs h a.1)

module _ (P : Entry → Type 0) where
  pub insert_entry-All : (e : Entry) (xs : List Entry) → P e → All P xs → All P (insert_entry e xs)
  unfolding insert_entry
  insert_entry-All e [] h a = (h, tt)
  insert_entry-All e (x ∷ xs) h a = ground (arith, insert_entry-All e xs h a.1)

  pub erase_entry-All : (e : Entry) (xs : List Entry) → All P xs → All P (erase_entry e xs)
  unfolding erase_entry
  erase_entry-All e [] a = tt
  erase_entry-All e (x ∷ xs) a = ground (arith, erase_entry-All e xs a.1)

pub insert_entry-Rises : (e : Entry) (xs : List Entry) → Rises xs → Rises (insert_entry e xs)
unfolding insert_entry
insert_entry-Rises e [] r = (tt, tt)
insert_entry-Rises e (x ∷ xs) r = elim (Bool-cases (less e x)) [
  | inl lt ↦ rw lt ((lt, All-less e x xs lt r.0), (r.0, r.1))
  | inr ge ↦ elim (Bool-cases (same e x)) [
    | inl eq ↦ rw (ge, eq) (r.0, r.1)
    | inr ne ↦
        rw (ge, ne)
          (
            insert_entry-All (λ y. less x y ≡ true) e xs (less_total e x ge ne) r.0,
            insert_entry-Rises e xs r.1,
          )
  ]
]

pub erase_entry-Rises : (e : Entry) (xs : List Entry) → Rises xs → Rises (erase_entry e xs)
unfolding erase_entry
erase_entry-Rises e [] r = tt
erase_entry-Rises e (x ∷ xs) r = elim (Bool-cases (same e x)) [
  | inl eq ↦ rw eq r.1
  | inr ne ↦ rw ne (erase_entry-All (λ y. less x y ≡ true) e xs r.0, erase_entry-Rises e xs r.1)
]

-- The times do not fall.
pub less-le :
    (when t b : ℕ) (xs : List Entry)
    → when ≤ t
    → All (λ y. less (t, b) y ≡ true) xs
    → All (λ (e : Entry). when ≤ e.0) xs
less-le when t b [] h a = tt
less-le when t b ((u, c) ∷ xs) h a = (ground arith, less-le when t b xs h a.1)

-- A time for which `is_earlier` holds is before all others.
pub is_earlier-All :
    (when : ℕ) (xs : List Entry)
    → Rises xs
    → is_earlier when xs ≡ true
    → All (λ (e : Entry). when ≤ e.0) xs
is_earlier-All when [] r h = tt
is_earlier-All when ((t, b) ∷ xs) r h = (ground arith, less-le when t b xs (ground arith) r.0)
