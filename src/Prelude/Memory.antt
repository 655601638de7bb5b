-- ===== src/Prelude/Memory.antt =====
-- Arrays of bytes: a copy into an array, and a sequence of arrays read as one memory.
use Prim.Native.Nat.{ℕ, zero, suc, ◌+◌, ◌-◌, ◌*◌, ◌≤◌}
use mathlib.Core.Path.{◌≡◌, refl, ap, sym}
use mathlib.Core.List.{List, [], ◌∷◌, ◌++◌, append_assoc}
use native.Mathlib.Omega.{arith}
use kknet.Prelude.Lists.{length, take, drop, All, length-append, drop-append-add}

module _ {ℓ} {A : Type ℓ} where
  -- The bytes go over the start of the array; what does not fit is not written.
  abbrev pub overlay : List A → List A → List A
  overlay [] mem = mem
  overlay (x ∷ xs) [] = []
  overlay (x ∷ xs) (m ∷ ms) = x ∷ overlay xs ms

  -- memcpy(mem + pos, bytes, length bytes)
  abbrev pub write_at : List A → ℕ → List A → List A
  write_at mem zero bytes = overlay bytes mem
  write_at [] (suc pos) bytes = []
  write_at (m ∷ ms) (suc pos) bytes = m ∷ write_at ms pos bytes

  abbrev pub flat : List (List A) → List A
  flat [] = []
  flat (b ∷ bs) = b ++ flat bs

module _ {ℓ} {A : Type ℓ} where
  pub length-overlay : (bytes mem : List A) → length (overlay bytes mem) ≡ length mem
  length-overlay [] mem = refl
  length-overlay (x ∷ xs) [] = refl
  length-overlay (x ∷ xs) (m ∷ ms) = ap suc (length-overlay xs ms)

  pub length-write_at :
      (mem : List A) (pos : ℕ) (bytes : List A) → length (write_at mem pos bytes) ≡ length mem
  length-write_at mem zero bytes = length-overlay bytes mem
  length-write_at [] (suc pos) bytes = refl
  length-write_at (m ∷ ms) (suc pos) bytes = ap suc (length-write_at ms pos bytes)

  overlay-nil : (bytes : List A) → overlay bytes [] ≡ []
  overlay-nil [] = refl
  overlay-nil (x ∷ xs) = refl

  -- A copy over two adjacent arrays is a copy to each.
  pub overlay-append :
      (bytes a b : List A)
      → overlay bytes (a ++ b)
        ≡ overlay (take (length a) bytes) a ++ overlay (drop (length a) bytes) b
  overlay-append [] [] b = refl
  overlay-append [] (y ∷ a) b = refl
  overlay-append (x ∷ xs) [] b = refl
  overlay-append (x ∷ xs) (y ∷ a) b = ap (◌∷◌ x) (overlay-append xs a b)

  -- The same for a copy that starts in the first of them.
  pub write_at-append :
      (a b : List A) (pos : ℕ) (bytes : List A)
      → pos ≤ length a
      → write_at (a ++ b) pos bytes
        ≡ write_at a pos (take (length a - pos) bytes) ++ overlay (drop (length a - pos) bytes) b
  write_at-append a b zero bytes h =
      let e : length a - 0 ≡ length a = omega arith in rw e (overlay-append bytes a b)
  write_at-append [] b (suc pos) bytes h = absurd (omega arith)
  write_at-append (x ∷ a) b (suc pos) bytes h =
      let e : suc (length a) - suc pos ≡ length a - pos = omega arith in
      rw e (ap (◌∷◌ x) (write_at-append a b pos bytes (omega arith)))

  -- A copy that starts behind the first array leaves it as it is.
  pub write_at-append_right :
      (a b : List A) (pos : ℕ) (bytes : List A)
      → write_at (a ++ b) (length a + pos) bytes ≡ a ++ write_at b pos bytes
  write_at-append_right [] b pos bytes = let e : 0 + pos ≡ pos = omega arith in rw e
  write_at-append_right (x ∷ a) b pos bytes =
      let e : suc (length a) + pos ≡ suc (length a + pos) = omega arith in
      rw e (ap (◌∷◌ x) (write_at-append_right a b pos bytes))

  pub take-overlay :
      (bytes mem : List A)
      → length bytes ≤ length mem
      → take (length bytes) (overlay bytes mem) ≡ bytes
  take-overlay [] mem h = refl
  take-overlay (x ∷ xs) [] h = absurd (omega arith)
  take-overlay (x ∷ xs) (m ∷ ms) h = ap (◌∷◌ x) (take-overlay xs ms (omega arith))

  take-write_at :
      (k : ℕ) (mem bytes : List A)
      → k + length bytes ≤ length mem
      → take (k + length bytes) (write_at mem k bytes) ≡ take k mem ++ bytes
  take-write_at zero mem bytes h =
      let e : 0 + length bytes ≡ length bytes = omega arith in
      rw e (take-overlay bytes mem (omega arith))
  take-write_at (suc k) [] bytes h = absurd (omega arith)
  take-write_at (suc k) (m ∷ ms) bytes h =
      let e : suc k + length bytes ≡ suc (k + length bytes) = omega arith in
      rw e (ap (◌∷◌ m) (take-write_at k ms bytes (omega arith)))

  -- A window of `k` bytes from `u` on, and a copy behind its end: the window grows by the copy.
  pub window-write_at :
      (u k : ℕ) (mem bytes : List A)
      → u + k + length bytes ≤ length mem
      → take (k + length bytes) (drop u (write_at mem (u + k) bytes)) ≡ take k (drop u mem) ++ bytes
  window-write_at zero k mem bytes h =
      let e : 0 + k ≡ k = omega arith in rw e (take-write_at k mem bytes (omega arith))
  window-write_at (suc u) k [] bytes h = absurd (omega arith)
  window-write_at (suc u) k (m ∷ ms) bytes h =
      let e : suc u + k ≡ suc (u + k) = omega arith in
      rw e (window-write_at u k ms bytes (omega arith))

  pub flat-append : (xs ys : List (List A)) → flat (xs ++ ys) ≡ flat xs ++ flat ys
  flat-append [] ys = refl
  flat-append (b ∷ xs) ys = rw (flat-append xs ys) (sym (append_assoc b (flat xs) (flat ys)))

-- Arrays of one size.
abbrev pub Sized {ℓ} : {A : Type ℓ} → ℕ → List (List A) → Type 0
Sized size bs = All (λ b. length b ≡ size) bs

module _ {ℓ} {A : Type ℓ} (size : ℕ) where
  pub length-flat : (bs : List (List A)) → Sized size bs → length (flat bs) ≡ length bs * size
  length-flat [] h = omega arith
  length-flat (b ∷ bs) h = omega (arith, length-append b (flat bs), length-flat bs h.1, h.0)

  pub flat-drop :
      (n : ℕ) (bs : List (List A))
      → Sized size bs
      → n ≤ length bs
      → flat (drop n bs) ≡ drop (n * size) (flat bs)
  flat-drop zero bs s h = let e : 0 * size ≡ 0 = omega arith in rw e
  flat-drop (suc n) [] s h = absurd (omega arith)
  flat-drop (suc n) (b ∷ bs) s h =
      let e : suc n * size ≡ size + n * size = omega arith in
      rw (e, drop-append-add size (n * size) b (flat bs) s.0) (flat-drop n bs s.1 (omega arith))

  -- A copy into the blocks from the `n`-th on, seen in the whole memory.
  pub write_at-flat :
      (n pos : ℕ) (bs : List (List A)) (bytes : List A)
      → Sized size bs
      → n ≤ length bs
      → flat (take n bs) ++ write_at (flat (drop n bs)) pos bytes
        ≡ write_at (flat bs) (n * size + pos) bytes
  write_at-flat zero pos bs bytes s h = let e : 0 * size + pos ≡ pos = omega arith in rw e
  write_at-flat (suc n) pos [] bytes s h = absurd (omega arith)
  write_at-flat (suc n) pos (b ∷ bs) bytes s h =
      let e : suc n * size + pos ≡ length b + (n * size + pos) = omega (arith, s.0) in
      rw (
        e,
        write_at-append_right b (flat bs) (n * size + pos) bytes,
        append_assoc b (flat (take n bs)) (write_at (flat (drop n bs)) pos bytes),
        write_at-flat n pos bs bytes s.1 (omega arith),
      )

module _ {ℓ} {A : Type ℓ} where
  pub write_at-nil : (mem : List A) (pos : ℕ) → write_at mem pos [] ≡ mem
  write_at-nil mem zero = refl
  write_at-nil [] (suc pos) = refl
  write_at-nil (m ∷ ms) (suc pos) = ap (◌∷◌ m) (write_at-nil ms pos)

  pub write_at-empty : (pos : ℕ) (bytes : List A) → write_at [] pos bytes ≡ []
  write_at-empty zero bytes = overlay-nil bytes
  write_at-empty (suc pos) bytes = refl

  overlay-take : (mem bytes : List A) → overlay bytes mem ≡ overlay (take (length mem) bytes) mem
  overlay-take [] bytes = overlay-nil bytes
  overlay-take (m ∷ mem) [] = refl
  overlay-take (m ∷ mem) (x ∷ bytes) = ap (◌∷◌ x) (overlay-take mem bytes)

  -- What does not fit behind the position is not written.
  pub write_at-take :
      (mem : List A) (pos : ℕ) (bytes : List A)
      → write_at mem pos bytes ≡ write_at mem pos (take (length mem - pos) bytes)
  write_at-take mem zero bytes =
      let e : length mem - 0 ≡ length mem = omega arith in rw e (overlay-take mem bytes)
  write_at-take [] (suc pos) bytes = refl
  write_at-take (m ∷ mem) (suc pos) bytes =
      let e : suc (length mem) - suc pos ≡ length mem - pos = omega arith in
      rw e (ap (◌∷◌ m) (write_at-take mem pos bytes))
