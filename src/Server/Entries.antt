-- ===== src/Server/Entries.antt =====
-- The entries of the map of a Server, and the objects of the connections.
use kknet.Prelude.{
  ℕ, ◌≡◌, ◌≢◌, refl, sym, ◌∙◌, ◌⊎◌, inl, inr, false, Bool-cases, Option, none, some, List, [], ◌∷◌,
  arith, ◌==◌, eqb→eq, eqb_refl, eqb-false,
}
use kknet.Server.Defs.{Member, lookup, assign, erase}
use kknet.Server.System.{put}

pub lookup-assign-same : (fd c : ℕ) (m : List (ℕ × ℕ)) → lookup fd (assign fd c m) ≡ some c
unfolding lookup assign
lookup-assign-same fd c [] = rw (eqb_refl fd) refl
lookup-assign-same fd c ((j, e) ∷ m) = elim (Bool-cases (j == fd)) [
  | inl y ↦ rw (y, eqb_refl fd) refl
  | inr n ↦ rw n (rw n (lookup-assign-same fd c m))
]

pub lookup-assign-other :
    (k fd c : ℕ) (m : List (ℕ × ℕ)) → k ≢ fd → lookup k (assign fd c m) ≡ lookup k m
unfolding lookup assign
lookup-assign-other k fd c [] h = rw (eqb-false fd k (λ z. h (sym z))) refl
lookup-assign-other k fd c ((j, e) ∷ m) h = elim (Bool-cases (j == fd)) [
  | inl y ↦
      rw (y, eqb-false j k (λ z. h (sym z ∙ eqb→eq j fd y)), eqb-false fd k (λ z. h (sym z))) refl
  | inr n ↦ rw n (elim (Bool-cases (j == k)) [
    | inl y ↦ rw y refl
    | inr n' ↦ rw n' (lookup-assign-other k fd c m h)
  ])
]

pub lookup-erase-same : (fd : ℕ) (m : List (ℕ × ℕ)) → lookup fd (erase fd m) ≡ none
unfolding lookup erase
lookup-erase-same fd [] = refl
lookup-erase-same fd ((j, e) ∷ m) = elim (Bool-cases (j == fd)) [
  | inl y ↦ rw y (lookup-erase-same fd m)
  | inr n ↦ rw n (rw n (lookup-erase-same fd m))
]

pub lookup-erase-other : (k fd : ℕ) (m : List (ℕ × ℕ)) → k ≢ fd → lookup k (erase fd m) ≡ lookup k m
unfolding lookup erase
lookup-erase-other k fd [] h = refl
lookup-erase-other k fd ((j, e) ∷ m) h = elim (Bool-cases (j == fd)) [
  | inl y ↦ rw (y, eqb-false j k (λ z. h (sym z ∙ eqb→eq j fd y))) (lookup-erase-other k fd m h)
  | inr n ↦ rw n (elim (Bool-cases (j == k)) [
    | inl y ↦ rw y refl
    | inr n' ↦ rw n' (lookup-erase-other k fd m h)
  ])
]

pub put_other :
    (objects : ℕ → Option Member) (c d : ℕ) (o : Option Member)
    → d ≢ c
    → put c o objects d ≡ objects d
put_other objects c d o n = rw (eqb-false d c n)

pub put_same : (objects : ℕ → Option Member) (c : ℕ) (o : Option Member) → put c o objects c ≡ o
put_same objects c o = rw (eqb_refl c)

pub neq_of : (a b : ℕ) → (a == b) ≡ false → a ≢ b
neq_of a b h = ground arith

pub put_cases :
    (objects : ℕ → Option Member) (c d : ℕ) (m x : Member)
    → put c (some m) objects d ≡ some x
    → ((d ≡ c) × (m ≡ x)) ⊎ ((d ≢ c) × (objects d ≡ some x))
put_cases objects c d m x h = elim (Bool-cases (d == c)) [
  | inl y ↦ inl (eqb→eq d c y, cc (rw y at h))
  | inr n ↦ inr (neq_of d c n, rw n at h)
]

pub gone : (k fd d : ℕ) (m : List (ℕ × ℕ)) → k ≡ fd → lookup k (erase fd m) ≡ some d → ⊥
gone k fd d m e h = cc (lookup-erase-same fd m, e, h)

pub still :
    (objects : ℕ → Option Member) (c d : ℕ) (m : Member)
    → put c none objects d ≡ some m
    → objects d ≡ some m
still objects c d m h = elim (Bool-cases (d == c)) [
  | inl y ↦ absurd (cc (rw y at h))
  | inr n ↦ rw n at h
]
