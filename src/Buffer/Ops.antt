-- ===== src/Buffer/Ops.antt =====
-- The state of a KBuffer and its operations.
use mathlib.Core.Option
use kknet.Prelude.{
  ℕ, zero, suc, ◌+◌, ◌-◌, Option, some, ◌&&◌, List, [], ◌∷◌, ◌++◌, length, take, drop, replicate,
  leb, ltb, ◌==◌, if◌then◌else◌, ◌>>=◌, add_size, sub_size,
}
use kknet.Buffer.Walk.{Block, do_write_first, peek_first, retrieve_first, settle}

-- `head_` is the first of the blocks and `tail_` the last one; both are null if there is none.
-- `readstr` and `writestr` are positions in `blocks`, null if there is no block.
pub record KBuffer : Type 0 where
  pub blocks : List Block
  pub readstr : ℕ
  pub writestr : ℕ
  pub readable_pos : ℕ
  pub writable_pos : ℕ
  pub readable_size : ℕ
  pub writable_size : ℕ
  pub used_size : ℕ
  pub buflen : ℕ

abbrev pub new : KBuffer
new = record {
  blocks = [];
  readstr = 0;
  writestr = 0;
  readable_pos = 0;
  writable_pos = 0;
  readable_size = 0;
  writable_size = 0;
  used_size = 0;
  buflen = 0;
}

-- The blocks before `readstr_` go behind the tail. The pointers follow their blocks.
unfoldable pub move_head : KBuffer → KBuffer
move_head kb = if kb.readstr == 0 then kb else record kb {
  blocks = drop kb.readstr kb.blocks ++ take kb.readstr kb.blocks;
  readstr = 0;
  writestr =
      if ltb kb.writestr kb.readstr
      then kb.writestr + (length kb.blocks - kb.readstr)
      else kb.writestr - kb.readstr;
  writable_size = add_size kb.writable_size (sub_size kb.used_size kb.readable_pos);
  used_size = kb.readable_pos;
}

-- `len = len > readableSize_ ? readableSize_ : len`
abbrev pub clip : ℕ → KBuffer → ℕ
clip len kb = if ltb kb.readable_size len then kb.readable_size else len

-- What `usedSize_ - readablePos_ + writableSize_` is.
abbrev pub reusable : KBuffer → ℕ
reusable kb = add_size (sub_size kb.used_size kb.readable_pos) kb.writable_size

-- `head_ = writestr_ = readstr_ = k`, if there was no block.
abbrev pub pointer : List Block → ℕ → ℕ
pointer [] p = 0
pointer (b ∷ bs) p = p

module _ (block : ℕ) where
  unfoldable pub do_write : KBuffer → List ℕ → Option KBuffer
  do_write kb bytes =
      do_write_first block (drop kb.writestr kb.blocks) kb.writable_pos bytes >>= λ f.
      settle block (length kb.blocks) (kb.writestr + f.walked) f.pos >>= λ at. some (record kb {
        blocks = take kb.writestr kb.blocks ++ f.blocks;
        writestr = at.0;
        writable_pos = at.1;
        readable_size = add_size kb.readable_size (length bytes);
        writable_size = sub_size kb.writable_size (length bytes);
      })

  unfoldable pub peek : KBuffer → ℕ → Option (List ℕ)
  peek kb size = peek_first block (drop kb.readstr kb.blocks) kb.readable_pos (clip size kb)

  unfoldable pub retrieve : KBuffer → ℕ → Option KBuffer
  retrieve kb len =
      retrieve_first block (drop kb.readstr kb.blocks) kb.readable_pos (clip len kb) >>= λ m.
      settle block (length kb.blocks) (kb.readstr + m.walked) m.pos >>= λ at. some (record kb {
        readstr = at.0;
        readable_pos = at.1;
        readable_size = sub_size kb.readable_size (clip len kb);
        used_size = add_size kb.used_size (clip len kb);
      })

  unfoldable pub read : KBuffer → ℕ → Option (List ℕ × KBuffer)
  read kb size = peek kb size >>= λ bytes. retrieve kb size >>= λ kb'. some (bytes, kb')

  -- One round of `makeSpace`: a new block of zeros behind the tail.
  unfoldable pub add_block : KBuffer → KBuffer
  add_block kb = record kb {
    blocks = kb.blocks ++ replicate block 0 ∷ [];
    readstr = pointer kb.blocks kb.readstr;
    writestr = pointer kb.blocks kb.writestr;
    buflen = add_size kb.buflen block;
    writable_size = add_size kb.writable_size block;
  }

  -- The loop of `makeSpace`, on fuel.
  unfoldable pub grow : ℕ → ℕ → KBuffer → KBuffer
  grow zero len kb = kb
  grow (suc fuel) zero kb = kb
  grow (suc fuel) (suc len) kb =
      grow fuel (if ltb block (suc len) then suc len - block else 0) (add_block kb)

  -- Each round takes a byte at least, so `len` rounds are enough.
  unfoldable pub make_space : KBuffer → ℕ → KBuffer
  unfolding grow add_block
  make_space kb len =
      let g = grow len len kb in
      if g.writable_pos == block
      then record g { writestr = suc g.writestr; writable_pos = 0 }
      else g

  module _ (max : ℕ) where
    -- The result is the number of bytes written.
    unfoldable pub write : KBuffer → List ℕ → Option (ℕ × KBuffer)
    write kb bytes =
        let size = length bytes in
        let m = move_head kb in
        if ltb (reusable kb) size && leb max kb.buflen
        then some (0, kb)
        else if leb size kb.writable_size
        then Option.map (λ k. (size, k)) (do_write kb bytes)
        else if leb size (reusable kb)
        then Option.map (λ k. (size, k)) (do_write m bytes)
        else if ltb (sub_size max m.writable_size) size
        then some (0, m)
        else Option.map (λ k. (size, k)) (do_write (make_space m size) bytes)
