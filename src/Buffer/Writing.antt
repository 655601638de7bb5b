-- ===== src/Buffer/Writing.antt =====
-- What `do_write` and `makeSpace` do to a buffer.
use kknet.Prelude.{
  ℕ, ◌+◌, ◌*◌, ◌≤◌, ◌<◌, ◌≡◌, refl, sym, ap, ◌∙◌, some, List, ◌++◌, arith, length, take, drop,
  length-append, length-take, length-drop, All-append, All-take, All-drop, flat-append,
  write_at-flat,
}
use kknet.Buffer.Walk.{Filled}
use kknet.Buffer.Ops.{KBuffer, do_write}
use kknet.Buffer.Filling.{Fills, do_write_first-Fills}
use kknet.Buffer.Placing.{placed, Places, placed-appended, placed-Inv}
use kknet.Buffer.Reading.{settle-Settles}
use kknet.Buffer.Invariant.{contents, Inv, IsSettled, IsOrdered, sub_mul}

-- The bytes have been appended.
pub record Wrote (block : ℕ) (kb : KBuffer) (bytes : List ℕ) (k : KBuffer) : Type 0 where
  pub inv : Inv block k
  pub settled : IsSettled block k
  pub ordered : IsOrdered k
  pub appended : contents k ≡ contents kb ++ bytes

module _ (block : ℕ) (pos : 0 < block) where
  -- The loop of `do_write` copies the bytes to the writing position.
  Fills-Places :
      (kb : KBuffer) (bytes : List ℕ) (f : Filled)
      → Inv block kb
      → kb.writestr < length kb.blocks
      → Fills block (drop kb.writestr kb.blocks) kb.writable_pos bytes f
      → Places block kb bytes (take kb.writestr kb.blocks ++ f.blocks)
  Fills-Places kb bytes f v lt r = record {
    memory =
        rw (flat-append (take kb.writestr kb.blocks) f.blocks, r.memory, ← v.writing)
          (write_at-flat block kb.writestr kb.writable_pos kb.blocks bytes v.sized (omega arith));
    sized =
        All-append (λ b. length b ≡ block) (take kb.writestr kb.blocks) f.blocks
          (All-take (λ b. length b ≡ block) kb.writestr kb.blocks v.sized) r.sized;
    count = omega (
      arith,
      length-append (take kb.writestr kb.blocks) f.blocks,
      length-take kb.writestr kb.blocks,
      length-drop kb.writestr kb.blocks,
      r.count,
    );
  }

  -- There is room for the bytes behind the writing position, and `do_write` appends them.
  pub do_write-Wrote :
      (kb : KBuffer) (bytes : List ℕ)
      → Inv block kb
      → IsOrdered kb
      → kb.writestr < length kb.blocks
      → length bytes ≤ kb.writable_size
      → (k : KBuffer) × (do_write block kb bytes ≡ some k)
        × Wrote block kb bytes k
        × (k.buflen ≡ kb.buflen)
  unfolding do_write placed
  do_write-Wrote kb bytes v ordered lt room =
      let rest = length-drop kb.writestr kb.blocks in
      let fits : kb.writable_pos + length bytes ≤ length (drop kb.writestr kb.blocks) * block =
        omega (
          arith,
          ap (λ (t : ℕ). t * block) rest,
          sub_mul (length kb.blocks) kb.writestr block (omega arith),
          v.writing,
          v.total,
          v.whole,
        ) in
      let (f, ef, r) =
        do_write_first-Fills block (drop kb.writestr kb.blocks) kb.writable_pos bytes
          (All-drop (λ b. length b ≡ block) kb.writestr kb.blocks v.sized) v.write_within fits
          (omega (arith, rest)) in
      let (at, ea, place, within, inside, after, last) =
        settle-Settles block (length kb.blocks) (kb.writestr + f.walked) f.pos pos r.within
          (omega (arith, rest, r.inside)) in
      let bs = take kb.writestr kb.blocks ++ f.blocks in
      let p = Fills-Places kb bytes f v lt r in
      (
        placed kb bytes bs at,
        rw (ef, ea),
        record {
          inv =
              placed-Inv block kb bytes bs at v room p (omega (arith, place, r.place, v.writing))
                within inside (omega arith);
          ordered = omega (arith, after);
          settled = λ e. last e ∙ sym p.count;
          appended = placed-appended block kb bytes bs at v room p;
        },
        refl,
      )
