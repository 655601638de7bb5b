-- ===== src/Buffer/Received.antt =====
-- What `readFd` does with the bytes that it gets.
use kknet.Prelude.{
  ℕ, suc, ◌+◌, ◌-◌, ◌*◌, ◌^◌, ◌≤◌, ◌<◌, ◌≡◌, refl, ap, ◌∙◌, ◌⊎◌, inl, inr, le_or_lt, some, List, [],
  ◌∷◌, ◌++◌, arith, length, take, drop, length-take, length-drop, leb-true, leb-false, take-all,
  take-append-drop, append_assoc, sub_size,
}
use kknet.Buffer.Walk.{Block}
use kknet.Buffer.Ops.{KBuffer, new, write, reusable}
use kknet.Buffer.Receive.{scatter, extra, advance, fill, last_block, scattered, received}
use kknet.Buffer.Invariant.{contents, Inv, IsOrdered, new-Inv, sub_mul}
use kknet.Buffer.Placing.{placed, placed-appended, placed-Inv}
use kknet.Buffer.Append.{write-Accepted, write-Refuses}
use kknet.Buffer.Scatter.{Added, extra-rest, scattered-Places, received_inside}

module _ (block : ℕ) where
  fill-placed :
      (k : KBuffer) (bytes : List ℕ) (bs : List Block)
      → k.blocks ≡ bs
      → 0 < length bs
      → length bytes ≡ k.writable_size
      → fill block k ≡ placed k bytes k.blocks (length k.blocks - 1, block)
  unfolding fill placed
  fill-placed k bytes [] e n h = absurd (omega arith)
  fill-placed k bytes (b ∷ bs) e n h =
      let z : sub_size k.writable_size k.writable_size ≡ 0 = omega arith in
      let l : suc (length bs) - 1 ≡ length bs = omega arith in rw (e, h, z, l)

  extra-new : (bytes : List ℕ) → extra block [] 0 bytes ≡ bytes
  unfolding extra
  extra-new bytes = refl

  received-new :
      (max : ℕ)
      → (k : KBuffer) × (received block max new (some []) ≡ some (some 0, k)) × Added block new [] k
  unfolding received advance scatter
  received-new max = (
    new,
    rw (leb-true 0 (block - 0) (omega arith)),
    record { inv = new-Inv block; appended = refl; bounded = inl refl },
  )

  fill-new :
      (bytes : List ℕ) → Added block new (take 0 bytes) (fill block (scattered block new bytes))
  unfolding fill scatter
  fill-new bytes = record { inv = new-Inv block; appended = refl; bounded = inl refl }

  -- The areas in the blocks are full, and there are more bytes.
  fill-Added :
      (kb : KBuffer) (bytes : List ℕ)
      → Inv block kb
      → kb.writable_size ≤ length bytes
      → Added block kb (take kb.writable_size bytes) (fill block (scattered block kb bytes))
  unfolding placed
  fill-Added kb bytes v h = elim v.inside [
    | inl (reader, lt) ↦
        let k = scattered block kb bytes in
        let few = take kb.writable_size bytes in
        let p = scattered-Places block kb bytes v lt in
        let n : length few ≡ kb.writable_size = omega (arith, length-take kb.writable_size bytes) in
        let e = fill-placed k few k.blocks refl (omega (arith, p.count)) n in
        let last = sub_mul (length k.blocks) 1 block (omega (arith, p.count)) in
        rw e (record {
          inv =
              placed-Inv block kb few k.blocks (length k.blocks - 1, block) v (omega arith) p
                (omega (arith, last, v.total, v.whole, ap (λ (t : ℕ). t * block) p.count))
                (omega arith) (omega (arith, p.count)) reader;
          appended =
              placed-appended block kb few k.blocks (length k.blocks - 1, block) v (omega arith) p;
          bounded = inl refl;
        })
    | inr n ↦ rw n (fill-new bytes)
  ]

  -- The writing position is in the last block.
  last_block-eq : (bs : List Block) → last_block bs ≡ length bs - 1
  last_block-eq [] = omega arith
  last_block-eq (b ∷ bs) = omega arith

  fill-IsOrdered :
      (kb : KBuffer) (bytes : List ℕ)
      → Inv block kb
      → IsOrdered (fill block (scattered block kb bytes))
  unfolding fill
  fill-IsOrdered kb bytes v = elim v.inside [
    | inl (reader, lt) ↦
        let p = scattered-Places block kb bytes v lt in
        omega (arith, last_block-eq (scattered block kb bytes).blocks, p.count)
    | inr n ↦ omega (arith, ap (λ (k : KBuffer). k.readstr) n)
  ]

-- The number of bytes that `readFd` can store: those of the areas, and those that `write` takes.
abbrev pub Takes : ℕ → KBuffer → ℕ → Type 0
Takes max kb size =
    (size ≤ kb.writable_size + (kb.used_size - kb.readable_pos))
    ⊎ ((kb.buflen < max) × (size - kb.writable_size + (kb.used_size - kb.readable_pos) ≤ max))

abbrev pub Loses : ℕ → KBuffer → ℕ → Type 0
Loses max kb size =
    (kb.writable_size + (kb.used_size - kb.readable_pos) < size)
    × ((max ≤ kb.buflen) ⊎ (max < size - kb.writable_size + (kb.used_size - kb.readable_pos)))

module _ (block max : ℕ) (pos : 0 < block) (fits : 2 * max + block < 2 ^ 64) (kb : KBuffer)
    (bytes : List ℕ) (v : Inv block kb) where
  abbrev filled : KBuffer
  filled = fill block (scattered block kb bytes)

  abbrev rest : List ℕ
  rest = drop kb.writable_size bytes

  filled_space : kb.writable_size < length bytes → reusable filled ≡ kb.used_size - kb.readable_pos
  unfolding fill
  filled_space h = omega (arith, v.small, v.total, v.reading)

  extra_eq : extra block (drop kb.writestr kb.blocks) kb.writable_pos bytes ≡ rest
  extra_eq = elim v.inside [
    | inl (reader, lt) ↦ extra-rest block kb bytes v lt
    | inr n ↦ rw n (extra-new block bytes)
  ]

  received_beyond :
      (r : ℕ × KBuffer)
      → kb.writable_size < length bytes
      → write block max filled rest ≡ some r
      → received block max kb (some bytes) ≡ some (some (kb.writable_size + r.0), r.1)
  unfolding received
  received_beyond r h e =
      let few : take (length bytes - kb.writable_size)
            (extra block (drop kb.writestr kb.blocks) kb.writable_pos bytes)
          ≡ rest =
        ap (take (length bytes - kb.writable_size)) extra_eq
        ∙ take-all (length bytes - kb.writable_size) rest
            (omega (arith, length-drop kb.writable_size bytes)) in
      rw (leb-false (length bytes) kb.writable_size h, few, e)

  received_fits :
      length bytes ≤ kb.writable_size
      → (k : KBuffer) × (received block max kb (some bytes) ≡ some (some (length bytes), k))
        × Added block kb bytes k
  received_fits le = elim v.inside [
    | inl (reader, lt) ↦
        let (k, e, a, same, rest) = received_inside block kb bytes v pos max lt reader le in
        (k, e, a)
    | inr n ↦
        let none_left = take-all 0 bytes (omega (arith, ap (λ (k : KBuffer). k.writable_size) n)) in
        rw (n, ← none_left) (received-new block max)
  ]

  -- On a KBuffer in order, bytes that fit into the
  -- areas of the blocks are stored behind the others, and so are more bytes if `write` takes them.
  pub received-Takes :
      Takes max kb (length bytes)
      → (k : KBuffer) × (received block max kb (some bytes) ≡ some (some (length bytes), k))
        × Added block kb bytes k
  unfolding fill
  received-Takes h = elim (le_or_lt (length bytes) kb.writable_size) [
    | inl le ↦ received_fits le
    | inr lt ↦
        let f = fill-Added block kb bytes v (omega arith) in
        let n = length-drop kb.writable_size bytes in
        let space = filled_space lt in
        let (k, e, a) =
          write-Accepted block max pos fits filled rest f.inv (fill-IsOrdered block kb bytes v)
            (elim h [
              | inl le ↦ inl (omega (arith, n, space))
              | inr (small, le) ↦ inr (small, omega (arith, n, space))
            ]) in
        (
          k,
          received_beyond (length rest, k) lt e
              ∙ ap (λ (t : ℕ). some (some t, k)) (omega (arith, n)),
          record {
            inv = a.wrote.inv;
            appended =
                a.wrote.appended
                ∙ ap (λ c. c ++ rest) f.appended
                ∙ append_assoc (contents kb) (take kb.writable_size bytes) rest
                ∙ ap (λ c. contents kb ++ c) (take-append-drop kb.writable_size bytes);
            bounded = elim a.bounded [
              | inl (le, same) ↦ inl same
              | inr (more, ge, less) ↦ inr (omega (arith, n, space), omega (arith, n))
            ];
          },
        )
  ]

  pub received-Loses :
      Loses max kb (length bytes)
      → (k : KBuffer) × (received block max kb (some bytes) ≡ some (some kb.writable_size, k))
        × Added block kb (take kb.writable_size bytes) k
  unfolding fill
  received-Loses (lt, why) =
      let f = fill-Added block kb bytes v (omega arith) in
      let n = length-drop kb.writable_size bytes in
      let space = filled_space (omega arith) in
      let (k, e, inv, order, same, l) =
        write-Refuses block max pos fits filled rest f.inv (fill-IsOrdered block kb bytes v) (
          omega (arith, n, space),
          elim why [ inl le ↦ inl le | inr over ↦ inr (omega (arith, n, space)) ],
        ) in
      (
        k,
        received_beyond (0, k) (omega arith) e ∙ ap (λ (t : ℕ). some (some t, k)) (omega arith),
        record { inv = inv; appended = same ∙ f.appended; bounded = inl l },
      )
