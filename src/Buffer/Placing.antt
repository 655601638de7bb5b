-- ===== src/Buffer/Placing.antt =====
-- A copy to the writing position, with the position behind it as the new one.
use kknet.Prelude.{
  ℕ, ◌+◌, ◌*◌, ◌≤◌, ◌<◌, ◌≡◌, inl, List, ◌++◌, arith, length, add_size, sub_size, add_size-eq,
  window-write_at, write_at, flat, length-flat, Sized,
}
use kknet.Buffer.Walk.{Block}
use kknet.Buffer.Ops.{KBuffer}
use kknet.Buffer.Invariant.{contents, Inv}

-- `bs` are the blocks with the bytes, `at` is the new writing position.
unfoldable pub placed : KBuffer → List ℕ → List Block → ℕ × ℕ → KBuffer
placed kb bytes bs at = record kb {
  blocks = bs;
  writestr = at.0;
  writable_pos = at.1;
  readable_size = add_size kb.readable_size (length bytes);
  writable_size = sub_size kb.writable_size (length bytes);
}

-- The memory of `bs` is that of the buffer with the bytes at the writing position.
pub record Places (block : ℕ) (kb : KBuffer) (bytes : List ℕ) (bs : List Block) : Type 0 where
  pub memory : flat bs ≡ write_at (flat kb.blocks) (kb.used_size + kb.readable_size) bytes
  pub sized : Sized block bs
  pub count : length bs ≡ length kb.blocks

module _ (block : ℕ) (kb : KBuffer) (bytes : List ℕ) (bs : List Block) (at : ℕ × ℕ)
    (v : Inv block kb) (room : length bytes ≤ kb.writable_size) (p : Places block kb bytes bs) where
  pub placed-appended : contents (placed kb bytes bs at) ≡ contents kb ++ bytes
  unfolding placed
  placed-appended =
      rw (p.memory, add_size-eq kb.readable_size (length bytes) (omega (arith, v.total, v.small)))
        (window-write_at kb.used_size kb.readable_size (flat kb.blocks) bytes
          (omega (arith, v.total, v.whole, length-flat block kb.blocks v.sized)))

  pub placed-Inv :
      at.0 * block + at.1 ≡ kb.used_size + kb.readable_size + length bytes
      → at.1 ≤ block
      → at.0 < length kb.blocks
      → kb.readstr < length kb.blocks
      → Inv block (placed kb bytes bs at)
  unfolding placed
  placed-Inv place within inside reader = record {
    sized = p.sized;
    reading = v.reading;
    writing = omega (arith, place, v.total, v.small);
    total = omega (arith, v.total, v.small);
    whole = rw p.count v.whole;
    read_within = v.read_within;
    write_within = within;
    inside = inl (rw p.count (reader, inside));
    small = v.small;
  }
