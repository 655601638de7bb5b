-- ===== src/Buffer/Growing.antt =====
-- What `makeSpace` does to a buffer.
use kknet.Prelude.{
  ℕ, zero, suc, ◌+◌, ◌-◌, ◌*◌, ◌^◌, ◌≤◌, ◌<◌, ◌≡◌, refl, sym, ap, ◌∙◌, ◌⊎◌, inl, inr, le_or_lt,
  List, [], ◌∷◌, ◌++◌, arith, length, drop, replicate, length-append, length-replicate, length-drop,
  All-append, Bool-cases, flat-append, eqb→eq, ltb-false, ltb-true, ◌==◌, append-nil,
  take-append-le, drop-append-le, flat, length-flat,
}
use kknet.Buffer.Walk.{Block}
use kknet.Buffer.Ops.{KBuffer, pointer, add_block, grow, make_space}
use kknet.Buffer.Invariant.{contents, Inv, IsOrdered, lt_of_mul_lt}

pointer-eq : (bs : List Block) (p : ℕ) → (p < length bs) ⊎ (p ≡ 0) → pointer bs p ≡ p
pointer-eq [] p (inl h) = absurd (omega arith)
pointer-eq [] p (inr h) = sym h
pointer-eq (b ∷ bs) p h = refl

-- What the loop of `makeSpace` does.
pub record Grows (block len : ℕ) (kb g : KBuffer) : Type 0 where
  pub inv : Inv block g
  pub same : contents g ≡ contents kb
  pub reader : g.readstr ≡ kb.readstr
  pub pointer : g.writestr ≡ kb.writestr
  pub offset : g.writable_pos ≡ kb.writable_pos
  pub space : kb.writable_size + len ≤ g.writable_size
  pub inside : (g.readstr < length g.blocks) × (g.writestr < length g.blocks)
  pub balance : g.buflen + kb.writable_size ≡ kb.buflen + g.writable_size

module _ (block : ℕ) (pos : 0 < block) where
  added_flat : (bs : List Block) (z : Block) → flat (bs ++ z ∷ []) ≡ flat bs ++ z
  added_flat bs z = rw (flat-append bs (z ∷ []), append-nil z)

  module _ (kb : KBuffer) (v : Inv block kb) (fits : kb.buflen + block < 2 ^ 64) where
    write_pointer : pointer kb.blocks kb.writestr ≡ kb.writestr
    write_pointer = elim v.inside [
      | inl lt ↦ pointer-eq kb.blocks kb.writestr (inl lt.1)
      | inr n ↦ pointer-eq kb.blocks kb.writestr (inr (ap (λ (k : KBuffer). k.writestr) n))
    ]

    read_pointer : pointer kb.blocks kb.readstr ≡ kb.readstr
    read_pointer = elim v.inside [
      | inl lt ↦ pointer-eq kb.blocks kb.readstr (inl lt.0)
      | inr n ↦ pointer-eq kb.blocks kb.readstr (inr (ap (λ (k : KBuffer). k.readstr) n))
    ]

    added_count : length (kb.blocks ++ replicate block 0 ∷ []) ≡ length kb.blocks + 1
    added_count = omega (arith, length-append kb.blocks (replicate block 0 ∷ []))

    added_inside :
        (kb.readstr < length (kb.blocks ++ replicate block 0 ∷ []))
        × (kb.writestr < length (kb.blocks ++ replicate block 0 ∷ []))
    added_inside = elim v.inside [
      | inl lt ↦ omega (arith, added_count)
      | inr n ↦ omega (
        arith,
        added_count,
        ap (λ (k : KBuffer). k.writestr) n,
        ap (λ (k : KBuffer). k.readstr) n,
      )
    ]

    add_block-Inv : Inv block (add_block block kb)
    unfolding add_block
    add_block-Inv =
        rw (write_pointer, read_pointer)
          (record {
            sized =
                All-append (λ b. length b ≡ block) kb.blocks (replicate block 0 ∷ []) v.sized
                  (length-replicate block 0, tt);
            reading = v.reading;
            writing = v.writing;
            total = omega (arith, v.total);
            whole = omega (arith, ap (λ (t : ℕ). t * block) added_count, v.whole);
            read_within = v.read_within;
            write_within = v.write_within;
            inside = inl added_inside;
            small = omega arith;
          })

    add_block-contents : contents (add_block block kb) ≡ contents kb
    unfolding add_block
    add_block-contents =
        let whole : length (flat kb.blocks) ≡ kb.buflen =
          length-flat block kb.blocks v.sized ∙ v.whole in
        rw (
          added_flat kb.blocks (replicate block 0),
          drop-append-le kb.used_size (flat kb.blocks) (replicate block 0) (omega (arith, v.total)),
          take-append-le kb.readable_size (drop kb.used_size (flat kb.blocks)) (replicate block 0)
              (omega (arith, v.total, length-drop kb.used_size (flat kb.blocks))),
        )

    add_block-Grows : (len : ℕ) → len ≤ block → Grows block len kb (add_block block kb)
    unfolding add_block
    add_block-Grows len h = record {
      inv = add_block-Inv;
      same = add_block-contents;
      reader = read_pointer;
      pointer = write_pointer;
      offset = refl;
      space = omega (arith, v.total);
      balance = omega (arith, v.total);
      inside = rw (write_pointer, read_pointer) added_inside;
    }

    buflen-add_block : (add_block block kb).buflen ≡ kb.buflen + block
    unfolding add_block
    buflen-add_block = omega arith

  grow-zero : (fuel : ℕ) (kb : KBuffer) → grow block fuel 0 kb ≡ kb
  unfolding grow
  grow-zero zero kb = refl
  grow-zero (suc fuel) kb = refl

  grow_last :
      (fuel len : ℕ) (kb : KBuffer)
      → suc len ≤ block
      → grow block (suc fuel) (suc len) kb ≡ add_block block kb
  unfolding grow
  grow_last fuel len kb le = rw (ltb-false block (suc len) le, grow-zero fuel (add_block block kb))

  grow_more :
      (fuel len : ℕ) (kb : KBuffer)
      → block < suc len
      → grow block (suc fuel) (suc len) kb ≡ grow block fuel (suc len - block) (add_block block kb)
  unfolding grow
  grow_more fuel len kb lt = rw (ltb-true block (suc len) lt)

  Grows-trans :
      (len more : ℕ) (kb m g : KBuffer)
      → Grows block len kb m
      → Grows block more m g
      → Grows block (len + more) kb g
  Grows-trans len more kb m g p q = record {
    inv = q.inv;
    same = q.same ∙ p.same;
    reader = q.reader ∙ p.reader;
    pointer = q.pointer ∙ p.pointer;
    offset = q.offset ∙ p.offset;
    space = omega (arith, p.space, q.space);
    balance = omega (arith, p.balance, q.balance);
    inside = q.inside;
  }

  -- With at least `len` rounds the loop ends by its test. It adds `len` bytes at least, and fewer
  -- than `len + block`.
  pub grow-Grows :
      (fuel len : ℕ) (kb : KBuffer)
      → 0 < len
      → len ≤ fuel
      → Inv block kb
      → kb.buflen + len + block < 2 ^ 64
      → Grows block len kb (grow block fuel len kb)
        × ((grow block fuel len kb).buflen < kb.buflen + len + block)
  grow-Grows zero len kb n h v fits = absurd (omega arith)
  grow-Grows (suc fuel) zero kb n h v fits = absurd (omega arith)
  grow-Grows (suc fuel) (suc len) kb n h v fits = elim (le_or_lt (suc len) block) [
    | inl le ↦ rw (grow_last fuel len kb le) (
      add_block-Grows kb v (omega arith) (suc len) le,
      omega (arith, buflen-add_block kb v (omega arith)),
    )
    | inr lt ↦
        let a = add_block-Grows kb v (omega arith) block (omega arith) in
        let l = buflen-add_block kb v (omega arith) in
        let r =
          grow-Grows fuel (suc len - block) (add_block block kb) (omega arith) (omega arith) a.inv
            (omega (arith, l)) in
        rw (grow_more fuel len kb lt) (
          let e : block + (suc len - block) ≡ suc len = omega arith in
              rw e at (
                Grows-trans block (suc len - block) kb (add_block block kb)
                  (grow block fuel (suc len - block) (add_block block kb)) a r.0),
          omega (arith, r.1, l),
        )
  ]

  next_block : KBuffer → KBuffer
  next_block g = record g { writestr = suc g.writestr; writable_pos = 0 }

  next_block-Grows :
      (len : ℕ) (kb g : KBuffer)
      → 0 < len
      → g.writable_pos ≡ block
      → Grows block len kb g
      → Inv block (next_block g) × (suc g.writestr < length g.blocks)
  unfolding next_block
  next_block-Grows len kb g n e r =
      let open_end : suc g.writestr < length g.blocks =
        lt_of_mul_lt (suc g.writestr) (length g.blocks) block
          (omega (arith, r.inv.writing, r.inv.total, r.inv.whole, r.space, e)) in
      (
        record {
          sized = r.inv.sized;
          reading = r.inv.reading;
          writing = omega (arith, r.inv.writing, e);
          total = r.inv.total;
          whole = r.inv.whole;
          read_within = r.inv.read_within;
          write_within = omega arith;
          inside = inl (r.inside.0, open_end);
          small = r.inv.small;
        },
        open_end,
      )

  -- `makeSpace` keeps the bytes, makes room for `len` more, and leaves the writing position in a
  -- block.
  pub record Spaced (kb : KBuffer) (len : ℕ) (g : KBuffer) : Type 0 where
    pub inv : Inv block g
    pub same : contents g ≡ contents kb
    pub space : kb.writable_size + len ≤ g.writable_size
    pub balance : g.buflen + kb.writable_size ≡ kb.buflen + g.writable_size
    pub bounded : g.buflen < kb.buflen + len + block
    pub ordered : IsOrdered kb → IsOrdered g
    pub inside : g.writestr < length g.blocks

  pub make_space-Spaced :
      (kb : KBuffer) (len : ℕ)
      → 0 < len
      → Inv block kb
      → kb.buflen + len + block < 2 ^ 64
      → Spaced kb len (make_space block kb len)
  unfolding make_space next_block
  make_space-Spaced kb len n v fits =
      let (r, bounded) = grow-Grows len len kb n (omega arith) v fits in
      elim (Bool-cases ((grow block len len kb).writable_pos == block)) [
        | inl e ↦
            let (inv, inside) =
              next_block-Grows len kb (grow block len len kb) n
                (eqb→eq (grow block len len kb).writable_pos block e) r in
            rw e (record {
              inv = inv;
              same = r.same;
              space = r.space;
              balance = r.balance;
              bounded = bounded;
              ordered = λ h. omega (arith, r.reader, r.pointer);
              inside = inside;
            })
        | inr e ↦ rw e (record {
          inv = r.inv;
          same = r.same;
          space = r.space;
          balance = r.balance;
          bounded = bounded;
          ordered = λ h. omega (arith, r.reader, r.pointer);
          inside = r.inside.1;
        })
      ]

module _ (block : ℕ) (pos : 0 < block) where
  -- The loop of `makeSpace` ends within one round for each byte that is needed: with any more fuel it
  -- leaves the same buffer. The block is not empty.
  pub grow-ends :
      (fuel more len : ℕ) (kb : KBuffer)
      → len ≤ fuel
      → len ≤ more
      → grow block fuel len kb ≡ grow block more len kb
  grow-ends fuel more zero kb h k = grow-zero block pos fuel kb ∙ sym (grow-zero block pos more kb)
  grow-ends zero more (suc len) kb h k = absurd (omega arith)
  grow-ends (suc fuel) zero (suc len) kb h k = absurd (omega arith)
  grow-ends (suc fuel) (suc more) (suc len) kb h k = elim (le_or_lt (suc len) block) [
    | inl le ↦ grow_last block pos fuel len kb le ∙ sym (grow_last block pos more len kb le)
    | inr lt ↦
        grow_more block pos fuel len kb lt
        ∙ grow-ends fuel more (suc len - block) (add_block block kb) (omega arith) (omega arith)
        ∙ sym (grow_more block pos more len kb lt)
  ]
