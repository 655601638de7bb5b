-- ===== src/Buffer/Receive.antt =====
-- `readFd` of KBuffer.cpp. The system call readv is a parameter: from the lengths of the areas it
-- gives the bytes read, or nothing in an error.
use mathlib.Core.Option
use kknet.Prelude.{
  ℕ, suc, ◌+◌, ◌-◌, ◌/◌, ◌%◌, Option, none, some, List, [], ◌∷◌, ◌++◌, length, take, drop, leb, ltb,
  ◌==◌, if◌then◌else◌, add_size, sub_size, write_at,
}
use kknet.Buffer.Walk.{Block}
use kknet.Buffer.Ops.{KBuffer, write}

-- `sizeof extrabuf`
abbrev pub extra_size : ℕ
extra_size = 65536

abbrev pub last_block : List Block → ℕ
last_block [] = 0
last_block (b ∷ bs) = length bs

module _ (block : ℕ) where
  -- The lengths of the areas in the blocks from `writestr_` on, the first one from `pos` on.
  unfoldable pub areas : List Block → ℕ → List ℕ
  areas [] pos = []
  areas (b ∷ bs) pos = (block - pos) ∷ areas bs 0

  -- The bytes go into the areas in order, each of which is filled before the next one.
  unfoldable pub scatter : List Block → ℕ → List ℕ → List Block
  scatter [] pos bytes = []
  scatter (b ∷ bs) pos bytes =
      write_at b pos (take (block - pos) bytes) ∷ scatter bs 0 (drop (block - pos) bytes)

  -- The bytes behind those of the areas: what is in `extrabuf`.
  unfoldable pub extra : List Block → ℕ → List ℕ → List ℕ
  extra [] pos bytes = bytes
  extra (b ∷ bs) pos bytes = extra bs 0 (drop (block - pos) bytes)

  -- `t` bytes fit into the areas. `vec[pos].iov_base` has to be the start of a block.
  unfoldable pub advance : ℕ → KBuffer → Option KBuffer
  advance t kb =
      let room = block - kb.writable_pos in
      let over = t - room in
      let pos = if over % block == 0 then over / block else suc (over / block) in
      let kb' = record kb {
        writable_size = sub_size kb.writable_size t;
        readable_size = add_size kb.readable_size t;
      } in
      if leb t room
      then some (record kb' { writable_pos = kb.writable_pos + t })
      else if ltb (kb.writestr + pos) (length kb.blocks)
      then some (record kb' {
        writestr = kb.writestr + pos;
        writable_pos = if over % block == 0 then block else over % block;
      })
      else none

  -- The areas in the blocks are full.
  unfoldable pub fill : KBuffer → KBuffer
  fill kb = record kb {
    writable_size = 0;
    writestr = last_block kb.blocks;
    writable_pos = elim kb.blocks [ [] ↦ 0 | b ∷ bs ↦ block ];
    readable_size = add_size kb.readable_size kb.writable_size;
  }

  -- The bytes have been put into the areas.
  abbrev pub scattered : KBuffer → List ℕ → KBuffer
  scattered kb bytes = record kb {
    blocks =
        take kb.writestr kb.blocks ++ scatter (drop kb.writestr kb.blocks) kb.writable_pos bytes;
  }

  module _ (max : ℕ) where
    -- What `readFd` does with the answer of readv. After an error it has no result: control
    -- reaches its end.
    unfoldable pub received : KBuffer → Option (List ℕ) → Option (Option ℕ × KBuffer)
    received kb none = some (none, kb)
    received kb (some bytes) =
        let t = length bytes in
        let writable = kb.writable_size in
        let kb' = scattered kb bytes in
        let rest = extra (drop kb.writestr kb.blocks) kb.writable_pos bytes in
        if leb t writable
        then Option.map (λ k. (some t, k)) (advance t kb')
        else Option.map (λ r. (some (writable + r.0), r.1))
            (write block max (fill kb') (take (t - writable) rest))

    -- `vec` has one entry for each block of the maximal length, and one for `extrabuf`.
    unfoldable pub read_fd : KBuffer → (List ℕ → Option (List ℕ)) → Option (Option ℕ × KBuffer)
    read_fd kb readv =
        let walk = drop kb.writestr kb.blocks in
        if ltb (max / block) (length walk)
        then none
        else received kb (readv (areas walk kb.writable_pos ++ extra_size ∷ []))
