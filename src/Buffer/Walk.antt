-- ===== src/Buffer/Walk.antt =====
-- The loops of KBuffer.cpp that walk the chain of blocks. A pointer into the chain is a position
-- in the list of the blocks, `walk` is the list of the blocks from there on (null is `[]`), and
-- `none` is the dereference of a null pointer.
use mathlib.Core.Option
use kknet.Prelude.{
  ℕ, zero, suc, ◌+◌, ◌-◌, Option, none, some, List, [], ◌∷◌, ◌++◌, length, take, drop, leb, ltb,
  ◌==◌, if◌then◌else◌, write_at,
}

-- BLOCK_SIZE and MAX_BLOCK_SIZE
abbrev pub block_size : ℕ
block_size = 1024

abbrev pub max_block_size : ℕ
max_block_size = 1_310_720

-- The bytes `buf` of a DataBlock.
abbrev pub Block : Type 0
Block = List ℕ

-- What `do_write` has done when its loop ends: the blocks, the number of times that `walk` went
-- on, and `writablePos_`.
pub record Filled : Type 0 where
  pub blocks : List Block
  pub walked : ℕ
  pub pos : ℕ

-- What `retrieve` has done when its loop ends.
pub record Moved : Type 0 where
  pub walked : ℕ
  pub pos : ℕ

abbrev pub behind : Block → Filled → Filled
behind b f = record f { blocks = b ∷ f.blocks; walked = suc f.walked }

abbrev pub further : Moved → Moved
further m = record m { walked = suc m.walked }

module _ (block : ℕ) where
  -- `do_write`, the rounds with `walk != writestr_`.
  unfoldable pub do_write_rest : List Block → List ℕ → Option Filled
  do_write_rest [] bytes = none
  do_write_rest (b ∷ bs) bytes =
      if leb (length bytes) block
      then some (record { blocks = write_at b 0 bytes ∷ bs; walked = 0; pos = length bytes })
      else Option.map (behind (write_at b 0 (take block bytes)))
          (do_write_rest bs (drop block bytes))

  -- `do_write`, the first round, from `writablePos_`. With no bytes there is none.
  unfoldable pub do_write_first : List Block → ℕ → List ℕ → Option Filled
  do_write_first bs pos [] = some (record { blocks = bs; walked = 0; pos = pos })
  do_write_first [] pos (x ∷ bytes) = none
  do_write_first (b ∷ bs) pos (x ∷ bytes) =
      if leb (length (x ∷ bytes)) (block - pos)
      then some (record {
        blocks = write_at b pos (x ∷ bytes) ∷ bs;
        walked = 0;
        pos = pos + length (x ∷ bytes);
      })
      else Option.map (behind (write_at b pos (take (block - pos) (x ∷ bytes))))
          (do_write_rest bs (drop (block - pos) (x ∷ bytes)))

  -- `peek`, the rounds with `walk != readstr_`.
  unfoldable pub peek_rest : List Block → ℕ → Option (List ℕ)
  peek_rest [] l = none
  peek_rest (b ∷ bs) l =
      if leb l block
      then some (take l b)
      else Option.map (◌++◌ (take block b)) (peek_rest bs (l - block))

  unfoldable pub peek_first : List Block → ℕ → ℕ → Option (List ℕ)
  peek_first bs pos zero = some []
  peek_first [] pos (suc l) = none
  peek_first (b ∷ bs) pos (suc l) =
      if leb (suc l) (block - pos)
      then some (take (suc l) (drop pos b))
      else Option.map (◌++◌ (take (block - pos) (drop pos b)))
          (peek_rest bs (suc l - (block - pos)))

  -- `retrieve`, the rounds with `walk != readstr_`. The branch that ends does not look into `walk`.
  unfoldable pub retrieve_rest : List Block → ℕ → Option Moved
  retrieve_rest [] l = if leb l block then some (record { walked = 0; pos = l }) else none
  retrieve_rest (b ∷ bs) l =
      if leb l block
      then some (record { walked = 0; pos = l })
      else Option.map further (retrieve_rest bs (l - block))

  unfoldable pub retrieve_first : List Block → ℕ → ℕ → Option Moved
  retrieve_first bs pos zero = some (record { walked = 0; pos = pos })
  retrieve_first [] pos (suc l) = none
  retrieve_first (b ∷ bs) pos (suc l) =
      if leb (suc l) (block - pos)
      then some (record { walked = 0; pos = pos + suc l })
      else Option.map further (retrieve_rest bs (suc l - (block - pos)))

  -- The end of `do_write` and of `retrieve`: from the end of a block to the start of the next one,
  -- if there is one. `count` is the number of the blocks.
  unfoldable pub settle : ℕ → ℕ → ℕ → Option (ℕ × ℕ)
  settle count walk pos =
      if pos == block
      then (if ltb walk count
          then some (if ltb (suc walk) count then (suc walk, 0) else (walk, pos))
          else none)
      else some (walk, pos)
