-- ===== src/Buffer/Faults.antt =====
-- Where a KBuffer goes wrong: a write behind the reading position, and a length above the maximum.
use kknet.Prelude.{
  ℕ, suc, ◌+◌, ◌-◌, ◌*◌, ◌^◌, ◌≤◌, ◌<◌, ◌≡◌, ap, inl, inr, none, some, List, [], ◌∷◌, ◌++◌, arith,
  length, take, drop, length-append, length-take, length-drop, eqb-false, ltb-false, ltb-true,
  leb-true, leb-false,
}
use kknet.Buffer.Walk.{Block, do_write_first, do_write_rest}
use kknet.Buffer.Ops.{KBuffer, move_head, do_write, reusable, write}
use kknet.Buffer.Invariant.{Inv, IsOrdered}
use kknet.Buffer.Append.{write-Accepted}

-- The reading position is the start of the block behind the one at whose end the writing position
-- is. The buffer holds no bytes.
abbrev pub IsBehind : ℕ → KBuffer → Type 0
IsBehind block kb = (kb.readstr ≡ suc kb.writestr) × (kb.writable_pos ≡ block)

module _ (block : ℕ) where
  full_last :
      (bs : List Block) (bytes : List ℕ)
      → length bs ≡ 1
      → 0 < length bytes
      → do_write_first block bs block bytes ≡ none
  unfolding do_write_first do_write_rest
  full_last [] bytes e n = absurd (omega arith)
  full_last (b ∷ c ∷ bs) bytes e n = absurd (omega arith)
  full_last (b ∷ []) [] e n = absurd (omega arith)
  full_last (b ∷ []) (x ∷ bytes) e n =
      rw (leb-false (length (x ∷ bytes)) (block - block) (omega arith))

  -- After `move_head` the block that is full is the last one, and `do_write` walks past it.
  behind_faults :
      (kb : KBuffer) (bytes : List ℕ)
      → IsBehind block kb
      → kb.readstr < length kb.blocks
      → 0 < length bytes
      → do_write block (move_head kb) bytes ≡ none
  unfolding do_write move_head
  behind_faults kb bytes h lt n =
      let last : length (
            drop (kb.writestr + (length kb.blocks - kb.readstr))
              (drop kb.readstr kb.blocks ++ take kb.readstr kb.blocks))
          ≡ 1 =
        omega (
          arith,
          length-drop (kb.writestr + (length kb.blocks - kb.readstr))
              (drop kb.readstr kb.blocks ++ take kb.readstr kb.blocks),
          length-append (drop kb.readstr kb.blocks) (take kb.readstr kb.blocks),
          length-drop kb.readstr kb.blocks,
          length-take kb.readstr kb.blocks,
        ) in
      rw (
        eqb-false kb.readstr 0 (omega arith),
        ltb-true kb.writestr kb.readstr (omega arith),
        h.1,
        full_last
            (drop (kb.writestr + (length kb.blocks - kb.readstr))
              (drop kb.readstr kb.blocks ++ take kb.readstr kb.blocks))
            bytes last n,
      )

  -- In a KBuffer in order whose writing position is the end of the block before the reading
  -- position, a write that needs more than `writableSize_` and fits into the room that can be
  -- reused dereferences a null pointer.
  pub write_behind_faults :
      (max : ℕ) (kb : KBuffer) (bytes : List ℕ)
      → Inv block kb
      → IsBehind block kb
      → kb.writable_size < length bytes
      → length bytes ≤ reusable kb
      → write block max kb bytes ≡ none
  unfolding write
  write_behind_faults max kb bytes v h lt le = elim v.inside [
    | inl i ↦ rw (
      ltb-false (reusable kb) (length bytes) le,
      leb-false (length bytes) kb.writable_size lt,
      leb-true (length bytes) (reusable kb) le,
      behind_faults kb bytes h i.0 (omega arith),
    )
    | inr n ↦ absurd (omega (arith, h.0, ap (λ (k : KBuffer). k.readstr) n))
  ]

  -- In a KBuffer in order, not written behind its reading position and smaller than the maximum,
  -- bytes that exceed the room it can reuse and not the maximum together with that room are written
  -- whole, and the buffer is then larger than the maximum if its length and theirs are.
  pub write_exceeds :
      (max : ℕ) (kb : KBuffer) (bytes : List ℕ)
      → 0 < block
      → 2 * max + block < 2 ^ 64
      → Inv block kb
      → IsOrdered kb
      → kb.buflen < max
      → reusable kb < length bytes
      → length bytes + reusable kb ≤ max
      → max < kb.buflen + length bytes
      → (k : KBuffer) × (write block max kb bytes ≡ some (length bytes, k)) × (max < k.buflen)
  write_exceeds max kb bytes pos fits v o small lt h over =
      let (k, e, a) = write-Accepted block max pos fits kb bytes v o (inr (small, h)) in
      (
        k,
        e,
        elim a.bounded [ inl same ↦ absurd (omega (arith, same.0)) | inr b ↦ omega (arith, b.1) ],
      )
