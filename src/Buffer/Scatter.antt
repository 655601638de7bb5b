-- ===== src/Buffer/Scatter.antt =====
-- The areas of `readFd` in the memory of a KBuffer.
use kknet.Prelude.{
  ◌⊎◌, subst, ℕ, suc, ◌+◌, ◌-◌, ◌*◌, ◌/◌, ◌%◌, ◌≤◌, ◌<◌, ◌≡◌, refl, sym, ap, ◌∙◌, inl, inr,
  le_or_lt, some, List, [], ◌∷◌, ◌++◌, arith, length, take, drop, length-append, length-take,
  length-drop, All-append, All-take, All-drop, leb-true, leb-false, ltb-true, eqb-true, eqb-false,
  drop-drop, take-all, write_at, write_at-append, length-write_at, write_at-flat, flat, flat-append,
  length-flat, Sized, add_size, sub_size, write_at-empty, write_at-take,
}
use kknet.Buffer.Walk.{Block}
use kknet.Buffer.Ops.{KBuffer}
use kknet.Buffer.Receive.{scatter, extra, advance, scattered, received}
use kknet.Buffer.Invariant.{contents, Inv, sub_mul, lt_of_mul_lt}
use kknet.Buffer.Placing.{placed, Places, placed-appended, placed-Inv}

-- `readFd` has added these bytes.
pub record Added (block : ℕ) (kb : KBuffer) (more : List ℕ) (k : KBuffer) : Type 0 where
  pub inv : Inv block k
  pub appended : contents k ≡ contents kb ++ more
  -- New blocks come only when the bytes do not fit, at most as many as are needed.
  pub bounded :
      (k.buflen ≡ kb.buflen)
      ⊎ (kb.writable_size + (kb.used_size - kb.readable_pos) < length more)
        × (k.buflen + kb.writable_size < kb.buflen + length more + block)

module _ (block : ℕ) where
  scatter-flat :
      (bs : List Block) (pos : ℕ) (bytes : List ℕ)
      → Sized block bs
      → pos ≤ block
      → flat (scatter block bs pos bytes) ≡ write_at (flat bs) pos bytes
  unfolding scatter
  scatter-flat [] pos bytes s p = sym (write_at-empty pos bytes)
  scatter-flat (b ∷ bs) pos bytes s p =
      let e : length b ≡ block = s.0 in
      rw (
        write_at-append b (flat bs) pos bytes (omega arith),
        e,
        scatter-flat bs 0 (drop (block - pos) bytes) s.1 (omega arith),
      )

  scatter-Sized :
      (bs : List Block) (pos : ℕ) (bytes : List ℕ)
      → Sized block bs
      → Sized block (scatter block bs pos bytes)
  unfolding scatter
  scatter-Sized [] pos bytes s = tt
  scatter-Sized (b ∷ bs) pos bytes s = (
    length-write_at b pos (take (block - pos) bytes) ∙ s.0,
    scatter-Sized bs 0 (drop (block - pos) bytes) s.1,
  )

  length-scatter :
      (bs : List Block) (pos : ℕ) (bytes : List ℕ) → length (scatter block bs pos bytes) ≡ length bs
  unfolding scatter
  length-scatter [] pos bytes = refl
  length-scatter (b ∷ bs) pos bytes = ap suc (length-scatter bs 0 (drop (block - pos) bytes))

  extra-drop :
      (bs : List Block) (pos : ℕ) (bytes : List ℕ)
      → pos ≤ block
      → extra block bs pos bytes ≡ drop (length bs * block - pos) bytes
  unfolding extra
  extra-drop [] pos bytes p = let e : 0 * block - pos ≡ 0 = omega arith in rw e
  extra-drop (b ∷ bs) pos bytes p =
      let e : block - pos + (length bs * block - 0) ≡ suc (length bs) * block - pos = omega arith in
      rw (
        extra-drop bs 0 (drop (block - pos) bytes) (omega arith),
        drop-drop (block - pos) (length bs * block - 0) bytes,
        e,
      )

module _ (block : ℕ) (pos : 0 < block) where
  -- The writing position goes on by `t` bytes, which may leave it at the end of a block.
  advance-Advances :
      (kb : KBuffer) (t : ℕ)
      → kb.writable_pos ≤ block
      → kb.writestr < length kb.blocks
      → kb.writestr * block + kb.writable_pos + t ≤ length kb.blocks * block
      → (at : ℕ × ℕ) × (advance block t kb
          ≡ some (record kb {
            writestr = at.0;
            writable_pos = at.1;
            writable_size = sub_size kb.writable_size t;
            readable_size = add_size kb.readable_size t;
          }))
        × (at.0 * block + at.1 ≡ kb.writestr * block + kb.writable_pos + t)
        × (at.1 ≤ block)
        × (at.0 < length kb.blocks)
        × (kb.writestr ≤ at.0)
        × (kb.writable_pos + t ≡ block → (at ≡ (kb.writestr, block)))
  unfolding advance
  advance-Advances kb t p lt fits = elim (le_or_lt t (block - kb.writable_pos)) [
    | inl le ↦ (
      (kb.writestr, kb.writable_pos + t),
      rw (leb-true t (block - kb.writable_pos) le),
      omega arith,
      omega arith,
      lt,
      omega arith,
      λ e. ap (λ (x : ℕ). (kb.writestr, x)) e,
    )
    | inr gt ↦ elim (le_or_lt ((t - (block - kb.writable_pos)) % block) 0) [
      | inl z ↦
          let over = t - (block - kb.writable_pos) in
          let inside : kb.writestr + over / block < length kb.blocks =
            lt_of_mul_lt (kb.writestr + over / block) (length kb.blocks) block (omega arith) in
          (
            (kb.writestr + over / block, block),
            rw (
              leb-false t (block - kb.writable_pos) gt,
              eqb-true (over % block) 0 (omega arith),
              ltb-true (kb.writestr + over / block) (length kb.blocks) inside,
            ),
            omega arith,
            omega arith,
            inside,
            omega arith,
            λ e. absurd (omega arith),
          )
      | inr nz ↦
          let over = t - (block - kb.writable_pos) in
          let inside : kb.writestr + suc (over / block) < length kb.blocks =
            lt_of_mul_lt (kb.writestr + suc (over / block)) (length kb.blocks) block
              (omega arith) in
          (
            (kb.writestr + suc (over / block), over % block),
            rw (
              leb-false t (block - kb.writable_pos) gt,
              eqb-false (over % block) 0 (omega arith),
              ltb-true (kb.writestr + suc (over / block)) (length kb.blocks) inside,
            ),
            omega arith,
            omega arith,
            inside,
            omega arith,
            λ e. absurd (omega arith),
          )
    ]
  ]

module _ (block : ℕ) (kb : KBuffer) (bytes : List ℕ) (v : Inv block kb) where
  -- The room in the areas is the writable size.
  areas_room :
      kb.writestr < length kb.blocks
      → length (drop kb.writestr kb.blocks) * block ≡ kb.writable_pos + kb.writable_size
  areas_room lt = omega (
    arith,
    ap (λ (t : ℕ). t * block) (length-drop kb.writestr kb.blocks),
    sub_mul (length kb.blocks) kb.writestr block (omega arith),
    v.writing,
    v.total,
    v.whole,
  )

  -- The bytes that fit into the areas are at the writing position.
  pub scattered-Places :
      kb.writestr < length kb.blocks
      → Places block kb (take kb.writable_size bytes) (scattered block kb bytes).blocks
  scattered-Places lt = record {
    memory =
        let room : length (flat kb.blocks) - (kb.used_size + kb.readable_size) ≡ kb.writable_size =
          omega (arith, length-flat block kb.blocks v.sized, v.total, v.whole) in
        rw (
          flat-append (take kb.writestr kb.blocks)
              (scatter block (drop kb.writestr kb.blocks) kb.writable_pos bytes),
          scatter-flat block (drop kb.writestr kb.blocks) kb.writable_pos bytes
              (All-drop (λ b. length b ≡ block) kb.writestr kb.blocks v.sized) v.write_within,
          write_at-flat block kb.writestr kb.writable_pos kb.blocks bytes v.sized (omega arith),
          v.writing,
          write_at-take (flat kb.blocks) (kb.used_size + kb.readable_size) bytes,
          room,
        );
    sized =
        All-append (λ b. length b ≡ block) (take kb.writestr kb.blocks)
          (scatter block (drop kb.writestr kb.blocks) kb.writable_pos bytes)
          (All-take (λ b. length b ≡ block) kb.writestr kb.blocks v.sized)
          (scatter-Sized block (drop kb.writestr kb.blocks) kb.writable_pos bytes
            (All-drop (λ b. length b ≡ block) kb.writestr kb.blocks v.sized));
    count = omega (
      arith,
      length-append (take kb.writestr kb.blocks)
          (scatter block (drop kb.writestr kb.blocks) kb.writable_pos bytes),
      length-take kb.writestr kb.blocks,
      length-drop kb.writestr kb.blocks,
      length-scatter block (drop kb.writestr kb.blocks) kb.writable_pos bytes,
    );
  }

  -- What is in `extrabuf`.
  pub extra-rest :
      kb.writestr < length kb.blocks
      → extra block (drop kb.writestr kb.blocks) kb.writable_pos bytes ≡ drop kb.writable_size bytes
  extra-rest lt =
      let e : length (drop kb.writestr kb.blocks) * block - kb.writable_pos ≡ kb.writable_size =
        omega (arith, areas_room lt) in
      rw (extra-drop block (drop kb.writestr kb.blocks) kb.writable_pos bytes v.write_within, e)

  module _ (pos : 0 < block) (max : ℕ) where
    pub received_inside :
        kb.writestr < length kb.blocks
        → kb.readstr < length kb.blocks
        → length bytes ≤ kb.writable_size
        → (k : KBuffer) × (received block max kb (some bytes) ≡ some (some (length bytes), k))
          × Added block kb bytes k
          × (k.buflen ≡ kb.buflen)
          × (kb.writable_pos + length bytes ≡ block
              → (k.writestr ≡ kb.writestr) × (k.writable_pos ≡ block))
    unfolding received placed
    received_inside lt reader le =
        let p : Places block kb bytes (scattered block kb bytes).blocks =
          subst (λ d. Places block kb d (scattered block kb bytes).blocks)
            (take-all kb.writable_size bytes le) (scattered-Places lt) in
        let (at, e, place, within, inside, after, exact) =
          advance-Advances block pos (scattered block kb bytes) (length bytes) v.write_within
            (rw p.count lt) (rw p.count (omega (arith, v.writing, v.total, v.whole))) in
        (
          placed kb bytes (scattered block kb bytes).blocks at,
          rw (leb-true (length bytes) kb.writable_size le, e),
          record {
            inv =
                placed-Inv block kb bytes (scattered block kb bytes).blocks at v le p
                  (omega (arith, place, v.writing)) within (subst (λ n. at.0 < n) p.count inside)
                  reader;
            appended = placed-appended block kb bytes (scattered block kb bytes).blocks at v le p;
            bounded = inl refl;
          },
          refl,
          λ h. let e = exact h in (ap (λ (x : ℕ × ℕ). x.0) e, ap (λ (x : ℕ × ℕ). x.1) e),
        )
