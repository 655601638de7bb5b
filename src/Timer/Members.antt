-- ===== src/Timer/Members.antt =====
-- The members of the sets of a TimerQueue.
use kknet.Prelude.{
  ℕ, ◌≡◌, ◌≢◌, refl, sym, ◌∙◌, ◌⊎◌, inl, inr, true, false, Bool-cases, List, [], ◌∷◌, ◌++◌, All,
  arith, subst,
}
use kknet.Timer.Queue.{Entry, less, same, insert_entry, erase_entry, contains}
use kknet.Timer.Sorted.{Rises}

abbrev pub In : ℕ × ℕ → List (ℕ × ℕ) → Type 0
In e xs = contains e xs ≡ true

pub same-eq : (e x : ℕ × ℕ) → same e x ≡ true → e ≡ x
same-eq (t, a) (u, b) h = let p : t ≡ u = ground arith in let q : a ≡ b = ground arith in rw (p, q)

pub same_refl : (e : ℕ × ℕ) → same e e ≡ true
same_refl (t, a) = ground arith

less_irrefl : (e : Entry) → less e e ≡ false
less_irrefl (t, a) = ground arith

pub In-nil {ℓ} : {A : Type ℓ} → (e : ℕ × ℕ) → In e [] → A
unfolding contains
In-nil e h = absurd (ground arith)

pub In-cons : (e x : ℕ × ℕ) (xs : List (ℕ × ℕ)) → In e (x ∷ xs) → (e ≡ x) ⊎ In e xs
unfolding contains
In-cons e x xs h = elim (Bool-cases (same e x)) [
  | inl eq ↦ inl (same-eq e x eq)
  | inr ne ↦ inr (sym (rw ne refl) ∙ h)
]

pub In-head : (x : ℕ × ℕ) (xs : List (ℕ × ℕ)) → In x (x ∷ xs)
unfolding contains
In-head x xs = rw (same_refl x) refl

pub In-tail : (e x : ℕ × ℕ) (xs : List (ℕ × ℕ)) → In e xs → In e (x ∷ xs)
unfolding contains
In-tail e x xs h = elim (Bool-cases (same e x)) [ inl eq ↦ rw eq refl | inr ne ↦ rw ne h ]

pub All-In : (P : ℕ × ℕ → Type 0) (e : ℕ × ℕ) (xs : List (ℕ × ℕ)) → All P xs → In e xs → P e
All-In P e [] a h = In-nil e h
All-In P e (x ∷ xs) a h = elim (In-cons e x xs h) [
  | inl eq ↦ subst P (sym eq) a.0
  | inr r ↦ All-In P e xs a.1 r
]

pub In-All : (P : ℕ × ℕ → Type 0) (xs : List (ℕ × ℕ)) → ((e : ℕ × ℕ) → In e xs → P e) → All P xs
In-All P [] f = tt
In-All P (x ∷ xs) f = (f x (In-head x xs), In-All P xs (λ e h. f e (In-tail e x xs h)))

pub In-insert_entry :
    (e x : ℕ × ℕ) (xs : List (ℕ × ℕ)) → In e (insert_entry x xs) → (e ≡ x) ⊎ In e xs
unfolding insert_entry
In-insert_entry e x [] h = In-cons e x [] h
In-insert_entry e x (y ∷ xs) h = elim (Bool-cases (less x y)) [
  | inl lt ↦ In-cons e x (y ∷ xs) (rw lt at h)
  | inr ge ↦ elim (Bool-cases (same x y)) [
    | inl eq ↦ inr (rw (ge, eq) at h)
    | inr ne ↦ elim (In-cons e y (insert_entry x xs) (rw (ge, ne) at h)) [
      | inl eq ↦ inr (subst (λ z. In z (y ∷ xs)) (sym eq) (In-head y xs))
      | inr r ↦ elim (In-insert_entry e x xs r) [
        | inl eq ↦ inl eq
        | inr r' ↦ inr (In-tail e y xs r')
      ]
    ]
  ]
]

pub In-erase_entry :
    (e x : ℕ × ℕ) (xs : List (ℕ × ℕ)) → Rises xs → In e (erase_entry x xs) → In e xs × (e ≢ x)
unfolding erase_entry
In-erase_entry e x [] r h = In-nil e h
In-erase_entry e x (y ∷ xs) r h = elim (Bool-cases (same x y)) [
  | inl eq ↦
      let there = rw eq at h in
      (
        In-tail e y xs there,
        λ z.
            let lt = All-In (λ w. less y w ≡ true) e xs r.0 there in
            cc (less_irrefl y, z, same-eq x y eq, lt),
      )
  | inr ne ↦ elim (In-cons e y (erase_entry x xs) (rw ne at h)) [
    | inl eq ↦
        (subst (λ z. In z (y ∷ xs)) (sym eq) (In-head y xs), λ z. cc (same_refl x, z, eq, ne))
    | inr t ↦ let (i, n) = In-erase_entry e x xs r.1 t in (In-tail e y xs i, n)
  ]
]

pub In-erased : (e x : ℕ × ℕ) (xs : List (ℕ × ℕ)) → In e xs → e ≢ x → In e (erase_entry x xs)
unfolding erase_entry
In-erased e x [] h n = h
In-erased e x (y ∷ xs) h n = elim (Bool-cases (same x y)) [
  | inl eq ↦ rw eq (elim (In-cons e y xs h) [
    | inl here ↦ absurd (n (here ∙ sym (same-eq x y eq)))
    | inr there ↦ there
  ])
  | inr ne ↦ rw ne (elim (In-cons e y xs h) [
    | inl here ↦ subst (λ z. In z (y ∷ erase_entry x xs)) (sym here) (In-head y (erase_entry x xs))
    | inr there ↦ In-tail e y (erase_entry x xs) (In-erased e x xs there n)
  ])
]

pub In-inserted : (x : ℕ × ℕ) (xs : List (ℕ × ℕ)) → In x (insert_entry x xs)
unfolding insert_entry
In-inserted x [] = In-head x []
In-inserted x (y ∷ xs) = elim (Bool-cases (less x y)) [
  | inl lt ↦ rw lt (In-head x (y ∷ xs))
  | inr ge ↦ elim (Bool-cases (same x y)) [
    | inl eq ↦ rw (ge, eq) (subst (λ z. In x (z ∷ xs)) (same-eq x y eq) (In-head x xs))
    | inr ne ↦ rw (ge, ne) (In-tail x y (insert_entry x xs) (In-inserted x xs))
  ]
]

pub In-append_left : (e : ℕ × ℕ) (xs ys : List (ℕ × ℕ)) → In e xs → In e (xs ++ ys)
In-append_left e [] ys h = In-nil e h
In-append_left e (x ∷ xs) ys h = elim (In-cons e x xs h) [
  | inl eq ↦ subst (λ z. In z (x ∷ xs ++ ys)) (sym eq) (In-head x (xs ++ ys))
  | inr r ↦ In-tail e x (xs ++ ys) (In-append_left e xs ys r)
]

pub In-append_right : (e : ℕ × ℕ) (xs ys : List (ℕ × ℕ)) → In e ys → In e (xs ++ ys)
In-append_right e [] ys h = h
In-append_right e (x ∷ xs) ys h = In-tail e x (xs ++ ys) (In-append_right e xs ys h)
