-- ===== src/Buffer/Filling.antt =====
-- What the loop of `do_write` does to the memory that the blocks make up.
use kknet.Prelude.{
  ℕ, suc, ◌+◌, ◌-◌, ◌*◌, ◌≤◌, ◌<◌, ◌≡◌, refl, sym, ap, ◌∙◌, inl, inr, le_or_lt, some, List, [], ◌∷◌,
  arith, length, take, drop, length-drop, take-all, drop-all, leb-true, leb-false, write_at,
  write_at-append, length-write_at, write_at-nil, flat, Sized,
}
use kknet.Buffer.Walk.{Block, Filled, behind, do_write_rest, do_write_first}

-- The loop, started at `pos` of the first of `bs`, has copied the bytes to there.
pub record Fills (block : ℕ) (bs : List Block) (pos : ℕ) (bytes : List ℕ) (f : Filled)
    : Type 0 where
  pub memory : flat f.blocks ≡ write_at (flat bs) pos bytes
  pub sized : Sized block f.blocks
  pub count : length f.blocks ≡ length bs
  pub place : f.walked * block + f.pos ≡ pos + length bytes
  pub within : f.pos ≤ block
  pub inside : f.walked < length bs

module _ (block : ℕ) where
  -- The last block of a copy.
  Fills-here :
      (b : Block) (bs : List Block) (pos : ℕ) (bytes : List ℕ)
      → Sized block (b ∷ bs)
      → pos + length bytes ≤ block
      → Fills block
          (b ∷ bs)
          pos
          bytes
          (record { blocks = write_at b pos bytes ∷ bs; walked = 0; pos = pos + length bytes })
  Fills-here b bs pos bytes s h = record {
    memory = rw (
      write_at-append b (flat bs) pos bytes (omega arith),
      take-all (length b - pos) bytes (omega arith),
      drop-all (length b - pos) bytes (omega arith),
    );
    sized = (length-write_at b pos bytes ∙ s.0, s.1);
    count = refl;
    place = omega arith;
    within = h;
    inside = omega arith;
  }

  -- A block that the copy fills to its end.
  Fills-behind :
      (b : Block) (bs : List Block) (pos : ℕ) (bytes : List ℕ) (f : Filled)
      → Sized block (b ∷ bs)
      → pos ≤ block
      → block < pos + length bytes
      → Fills block bs 0 (drop (block - pos) bytes) f
      → Fills block (b ∷ bs) pos bytes (behind (write_at b pos (take (block - pos) bytes)) f)
  Fills-behind b bs pos bytes f s p h r = record {
    memory =
        let e : length b ≡ block = s.0 in
        rw (write_at-append b (flat bs) pos bytes (omega arith), e, r.memory);
    sized = (length-write_at b pos (take (block - pos) bytes) ∙ s.0, r.sized);
    count = ap suc r.count;
    place = omega (arith, r.place, length-drop (block - pos) bytes);
    within = r.within;
    inside = omega (arith, r.inside);
  }

  do_write_rest-Fills :
      (bs : List Block) (bytes : List ℕ)
      → Sized block bs
      → length bytes ≤ length bs * block
      → 0 < length bytes
      → (f : Filled) × (do_write_rest block bs bytes ≡ some f) × Fills block bs 0 bytes f
  unfolding do_write_rest
  do_write_rest-Fills [] bytes s h n = absurd (omega arith)
  do_write_rest-Fills (b ∷ bs) bytes s h n = elim (le_or_lt (length bytes) block) [
    | inl le ↦ (
      record { blocks = write_at b 0 bytes ∷ bs; walked = 0; pos = length bytes },
      rw (leb-true (length bytes) block le),
      let e : 0 + length bytes ≡ length bytes = omega arith in
          rw e at (Fills-here b bs 0 bytes s (omega arith)),
    )
    | inr lt ↦
        let (f, e, r) =
          do_write_rest-Fills bs (drop block bytes) s.1 (omega (arith, length-drop block bytes))
            (omega (arith, length-drop block bytes)) in
        (
          behind (write_at b 0 (take block bytes)) f,
          rw (leb-false (length bytes) block lt, e),
          let z : block - 0 ≡ block = omega arith in
              rw z at (Fills-behind b bs 0 bytes f s (omega arith) (omega arith) (rw z r)),
        )
  ]

  -- The whole loop: it ends with the bytes in their place, if there is room for them.
  pub do_write_first-Fills :
      (bs : List Block) (pos : ℕ) (bytes : List ℕ)
      → Sized block bs
      → pos ≤ block
      → pos + length bytes ≤ length bs * block
      → 0 < length bs
      → (f : Filled) × (do_write_first block bs pos bytes ≡ some f) × Fills block bs pos bytes f
  unfolding do_write_first
  do_write_first-Fills bs pos [] s p h n = (
    record { blocks = bs; walked = 0; pos = pos },
    refl,
    record {
      memory = sym (write_at-nil (flat bs) pos);
      sized = s;
      count = refl;
      place = omega arith;
      within = p;
      inside = n;
    },
  )
  do_write_first-Fills [] pos (x ∷ bytes) s p h n = absurd (omega arith)
  do_write_first-Fills (b ∷ bs) pos (x ∷ bytes) s p h n =
      elim (le_or_lt (length (x ∷ bytes)) (block - pos)) [
        | inl le ↦ (
          record {
            blocks = write_at b pos (x ∷ bytes) ∷ bs;
            walked = 0;
            pos = pos + length (x ∷ bytes);
          },
          rw (leb-true (length (x ∷ bytes)) (block - pos) le),
          Fills-here b bs pos (x ∷ bytes) s (omega arith),
        )
        | inr lt ↦
            let room = length-drop (block - pos) (x ∷ bytes) in
            let (f, e, r) =
              do_write_rest-Fills bs (drop (block - pos) (x ∷ bytes)) s.1 (omega (arith, room))
                (omega (arith, room)) in
            (
              behind (write_at b pos (take (block - pos) (x ∷ bytes))) f,
              rw (leb-false (length (x ∷ bytes)) (block - pos) lt, e),
              Fills-behind b bs pos (x ∷ bytes) f s p (omega arith) r,
            )
      ]
