-- ===== src/Buffer/Reading.antt =====
-- What the loops of `peek` and `retrieve` read of the memory that the blocks make up.
use kknet.Prelude.{
  ℕ, zero, suc, ◌+◌, ◌-◌, ◌*◌, ◌≤◌, ◌<◌, ◌≡◌, refl, inl, inr, le_or_lt, some, List, [], ◌∷◌, ◌++◌,
  arith, length, take, drop, length-drop, take-all, leb-true, leb-false, eqb-false, eqb-true,
  ltb-true, ltb-false, take-append-le, drop-append-le, take-append-add, flat, Sized,
}
use kknet.Buffer.Walk.{
  Block, Moved, further, peek_rest, peek_first, retrieve_rest, retrieve_first, settle,
}

module _ (block : ℕ) where
  peek_rest-flat :
      (bs : List Block) (l : ℕ)
      → Sized block bs
      → l ≤ length bs * block
      → 0 < l
      → peek_rest block bs l ≡ some (take l (flat bs))
  unfolding peek_rest
  peek_rest-flat [] l s h n = absurd (omega arith)
  peek_rest-flat (b ∷ bs) l s h n = elim (le_or_lt l block) [
    | inl le ↦ rw (leb-true l block le, take-append-le l b (flat bs) (omega (arith, s.0)))
    | inr lt ↦
        let e : block + (l - block) ≡ l = omega arith in
        let t : take l (b ++ flat bs) ≡ b ++ take (l - block) (flat bs) =
          rw e at (take-append-add block (l - block) b (flat bs) s.0) in
        rw (
          leb-false l block lt,
          peek_rest-flat bs (l - block) s.1 (omega arith) (omega arith),
          t,
          take-all block b (omega (arith, s.0)),
        )
  ]

  -- `peek` reads the bytes from `pos` of the first block on.
  pub peek_first-flat :
      (bs : List Block) (pos l : ℕ)
      → Sized block bs
      → pos ≤ block
      → pos + l ≤ length bs * block
      → peek_first block bs pos l ≡ some (take l (drop pos (flat bs)))
  unfolding peek_first
  peek_first-flat bs pos zero s p h = refl
  peek_first-flat [] pos (suc l) s p h = absurd (omega arith)
  peek_first-flat (b ∷ bs) pos (suc l) s p h =
      let part : length (drop pos b) ≡ block - pos = omega (arith, length-drop pos b, s.0) in
      elim (le_or_lt (suc l) (block - pos)) [
        | inl le ↦ rw (
          leb-true (suc l) (block - pos) le,
          drop-append-le pos b (flat bs) (omega (arith, s.0)),
          take-append-le (suc l) (drop pos b) (flat bs) (omega (arith, part)),
        )
        | inr lt ↦
            let e : block - pos + (suc l - (block - pos)) ≡ suc l = omega arith in
            let t : take (suc l) (drop pos b ++ flat bs)
                ≡ drop pos b ++ take (suc l - (block - pos)) (flat bs) =
              rw e at (
                take-append-add (block - pos) (suc l - (block - pos)) (drop pos b) (flat bs)
                  part) in
            rw (
              leb-false (suc l) (block - pos) lt,
              peek_rest-flat bs (suc l - (block - pos)) s.1 (omega arith) (omega arith),
              drop-append-le pos b (flat bs) (omega (arith, s.0)),
              t,
              take-all (block - pos) (drop pos b) (omega (arith, part)),
            )
      ]

  retrieve_rest-Moves :
      (bs : List Block) (l : ℕ)
      → l ≤ length bs * block
      → 0 < l
      → (m : Moved) × (retrieve_rest block bs l ≡ some m)
        × (m.walked * block + m.pos ≡ l)
        × (m.pos ≤ block)
        × (m.walked < length bs)
  unfolding retrieve_rest
  retrieve_rest-Moves [] l h n = absurd (omega arith)
  retrieve_rest-Moves (b ∷ bs) l h n = elim (le_or_lt l block) [
    | inl le ↦
        (record { walked = 0; pos = l }, rw (leb-true l block le), omega arith, le, omega arith)
    | inr lt ↦
        let (m, e, place, within, inside) =
          retrieve_rest-Moves bs (l - block) (omega arith) (omega arith) in
        (
          further m,
          rw (leb-false l block lt, e),
          omega (arith, place),
          within,
          omega (arith, inside),
        )
  ]

  -- `retrieve` goes on by `l` bytes.
  pub retrieve_first-Moves :
      (bs : List Block) (pos l : ℕ)
      → pos ≤ block
      → pos + l ≤ length bs * block
      → 0 < length bs
      → (m : Moved) × (retrieve_first block bs pos l ≡ some m)
        × (m.walked * block + m.pos ≡ pos + l)
        × (m.pos ≤ block)
        × (m.walked < length bs)
  unfolding retrieve_first
  retrieve_first-Moves bs pos zero p h n =
      (record { walked = 0; pos = pos }, refl, omega arith, p, omega arith)
  retrieve_first-Moves [] pos (suc l) p h n = absurd (omega arith)
  retrieve_first-Moves (b ∷ bs) pos (suc l) p h n = elim (le_or_lt (suc l) (block - pos)) [
    | inl le ↦ (
      record { walked = 0; pos = pos + suc l },
      rw (leb-true (suc l) (block - pos) le),
      omega arith,
      omega arith,
      omega arith,
    )
    | inr lt ↦
        let (m, e, place, within, inside) =
          retrieve_rest-Moves bs (suc l - (block - pos)) (omega arith) (omega arith) in
        (
          further m,
          rw (leb-false (suc l) (block - pos) lt, e),
          omega (arith, place),
          within,
          omega (arith, inside),
        )
  ]

  -- `settle` does not move the position in the memory, and does not leave it at the end of a block
  -- that has a next one.
  pub settle-Settles :
      (count walk pos : ℕ)
      → 0 < block
      → pos ≤ block
      → walk < count
      → (at : ℕ × ℕ) × (settle block count walk pos ≡ some at)
        × (at.0 * block + at.1 ≡ walk * block + pos)
        × (at.1 ≤ block)
        × (at.0 < count)
        × (walk ≤ at.0)
        × (at.1 ≡ block → suc at.0 ≡ count)
  unfolding settle
  settle-Settles count walk pos b p h = elim (le_or_lt block pos) [
    | inr lt ↦ (
      (walk, pos),
      rw (eqb-false pos block (omega arith)),
      refl,
      p,
      h,
      omega arith,
      λ e. absurd (omega arith),
    )
    | inl le ↦
        let full = eqb-true pos block (omega arith) in
        elim (le_or_lt count (suc walk)) [
          | inl last ↦ (
            (walk, pos),
            rw (full, ltb-true walk count h, ltb-false (suc walk) count last),
            refl,
            p,
            h,
            omega arith,
            λ _. omega arith,
          )
          | inr lt ↦ (
            (suc walk, 0),
            rw (full, ltb-true walk count h, ltb-true (suc walk) count lt),
            omega arith,
            omega arith,
            lt,
            omega arith,
            λ e. absurd (omega arith),
          )
        ]
  ]
