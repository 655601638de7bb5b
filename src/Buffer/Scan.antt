-- ===== src/Buffer/Scan.antt =====
-- `getLine` of KBuffer.cpp.
use kknet.Prelude.{
  ℕ, zero, suc, Option, none, some, Bool, true, false, List, [], ◌∷◌, drop, get_elem?, leb, ◌==◌,
  if◌then◌else◌, ◌>>=◌,
}
use kknet.Buffer.Walk.{Block}
use kknet.Buffer.Ops.{KBuffer, read}

-- The pointers after `++tmp_readablePos`, or at the start.
abbrev pub next_char : ℕ → List Block → ℕ → List Block × ℕ
next_char block [] pos = ([], pos)
next_char block (b ∷ bs) pos = if pos == block then (bs, 0) else (b ∷ bs, pos)

module _ (block : ℕ) where
  -- The loop, on fuel: `some n` for a line of `n` bytes with its end, `none` for no line.
  unfoldable pub scan_line : ℕ → List Block → ℕ → ℕ → ℕ → Option (Option ℕ)
  scan_line zero bs pos i size = none
  scan_line (suc fuel) [] pos i size = none
  scan_line (suc fuel) (b ∷ bs) pos i size =
      let next = next_char block (b ∷ bs) (suc pos) in
      let rest = scan_line fuel next.0 next.1 (suc i) size in
      get_elem? b pos >>= λ ch.
      if ch == 10 then some (some (suc i)) else if leb size (suc i) then some none else rest

  -- A round for each byte is enough, and one is run on an empty buffer too.
  unfoldable pub get_line : KBuffer → Option (Bool × List ℕ × KBuffer)
  get_line kb =
      let start = next_char block (drop kb.readstr kb.blocks) kb.readable_pos in
      scan_line (suc kb.readable_size) start.0 start.1 0 kb.readable_size >>= λ found. elim found [
        | none ↦ some (false, [], kb)
        | some n ↦ read block kb n >>= λ r. some (true, r.0, r.1)
      ]
