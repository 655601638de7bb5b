-- ===== src/Buffer/Incoming.antt =====
-- `readFd` as its callers see it.
use kknet.Prelude.{
  ℕ, suc, ◌+◌, ◌-◌, ◌*◌, ◌/◌, ◌^◌, ◌≤◌, ◌<◌, ◌≡◌, ap, ◌∙◌, inl, inr, le_or_lt, none, some, Option,
  List, [], ◌∷◌, ◌++◌, arith, length, take, drop, length-drop, ltb-false, take-all,
}
use kknet.Buffer.Walk.{Block}
use kknet.Buffer.Ops.{KBuffer, read, write}
use kknet.Buffer.Receive.{extra_size, areas, received, read_fd}
use kknet.Buffer.Invariant.{contents, Inv, length-contents, reusable-eq, lt_of_mul_lt, sub_mul}
use kknet.Buffer.Consume.{read-Drops}
use kknet.Buffer.Scatter.{Added, received_inside}
use kknet.Buffer.Received.{Takes, Loses, received-Takes, received-Loses}
use kknet.Buffer.Faults.{IsBehind, write_behind_faults}

-- What readv answers for the areas of `readFd`.
abbrev pub answer : ℕ → KBuffer → (List ℕ → Option (List ℕ)) → Option (List ℕ)
answer block kb readv =
    readv (areas block (drop kb.writestr kb.blocks) kb.writable_pos ++ extra_size ∷ [])

-- When all has been read up to the end of a block that has a next one, reading goes on there.
next_block :
    (block : ℕ) (k : KBuffer)
    → 0 < block
    → Inv block k
    → (k.readable_pos ≡ block → suc k.readstr ≡ length k.blocks)
    → k.readable_size ≡ 0
    → k.writable_pos ≡ block
    → suc k.writestr < length k.blocks
    → IsBehind block k × (k.readable_pos ≡ 0)
next_block block k pos v settled z full next =
    let above = lt_of_mul_lt (suc k.writestr) (suc k.readstr) block in
    let below = lt_of_mul_lt k.readstr (suc (suc k.writestr)) block in
    elim (le_or_lt block k.readable_pos) [
      | inl le ↦
          let last = settled (omega (arith, v.read_within)) in
          absurd (
            omega (
              arith,
              lt_of_mul_lt k.readstr (suc k.writestr) block (omega (arith, v.reading, v.writing)),
            ))
      | inr lt ↦
          let e : k.readstr ≡ suc k.writestr = omega (
            arith,
            above (omega (arith, v.reading, v.writing)),
            below (omega (arith, v.reading, v.writing)),
          ) in
          ((e, full), omega (arith, v.reading, v.writing, ap (λ (t : ℕ). t * block) e))
    ]

reader_inside :
    (block : ℕ) (kb : KBuffer) → Inv block kb → 0 < length kb.blocks → kb.readstr < length kb.blocks
reader_inside block kb v h = elim v.inside [
  | inl lt ↦ lt.0
  | inr n ↦ absurd (omega (arith, ap (λ (k : KBuffer). length k.blocks) n))
]

module _ (block max : ℕ) (pos : 0 < block) (kb : KBuffer) (v : Inv block kb)
    (small : kb.buflen ≤ max) where
  pub read_fd-received :
      (readv : List ℕ → Option (List ℕ)) (a : Option (List ℕ))
      → answer block kb readv ≡ a
      → read_fd block max kb readv ≡ received block max kb a
  unfolding read_fd
  read_fd-received readv a e =
      let few : length (drop kb.writestr kb.blocks) ≤ max / block = omega (
        arith,
        lt_of_mul_lt (length kb.blocks) (suc (max / block)) block (omega (arith, v.whole)),
        length-drop kb.writestr kb.blocks,
      ) in
      rw (ltb-false (max / block) (length (drop kb.writestr kb.blocks)) few, e)

  module _ (fits : 2 * max + block < 2 ^ 64) (readv : List ℕ → Option (List ℕ)) (bytes : List ℕ)
      (e : answer block kb readv ≡ some bytes) where
    -- On a KBuffer in order and not longer than the maximum, `readFd` stores the bytes that readv has
    -- read behind the others and returns their number, if they fit into the areas of the blocks or
    -- `write` takes those that do not. The result is in order, with at most the blocks needed. The
    -- block is not empty, and twice the maximum and a block fit in a size_t.
    pub read_fd-Added :
        Takes max kb (length bytes)
        → (k : KBuffer) × (read_fd block max kb readv ≡ some (some (length bytes), k))
          × Added block kb bytes k
    read_fd-Added h =
        let (k, r, a) = received-Takes block max pos fits kb bytes v h in
        (k, read_fd-received readv (some bytes) e ∙ r, a)

    -- On such a KBuffer, when `write` refuses the bytes that do not fit into the areas of the
    -- blocks, `readFd` returns the writable size and stores that many bytes: those behind them have
    -- been read from the descriptor and are in no buffer.
    pub read_fd-Loses :
        Loses max kb (length bytes)
        → (k : KBuffer) × (read_fd block max kb readv ≡ some (some kb.writable_size, k))
          × Added block kb (take kb.writable_size bytes) k
    read_fd-Loses h =
        let (k, r, a) = received-Loses block max pos fits kb bytes v h in
        (k, read_fd-received readv (some bytes) e ∙ r, a)

    -- On such a KBuffer, when readv reads exactly up to the end of the block of the writing
    -- position and there is a next block, and all bytes are then read from the buffer, a `write`
    -- that needs more than the writable size and not more than the length of the buffer
    -- dereferences a null pointer.
    pub exact_read_faults :
        (out : List ℕ)
        → kb.writable_pos + length bytes ≡ block
        → suc kb.writestr < length kb.blocks
        → kb.writable_size - length bytes < length out
        → length out ≤ kb.buflen
        → (k : KBuffer) × (k' : KBuffer) × (read_fd block max kb readv
            ≡ some (some (length bytes), k))
          × (read block k k.readable_size ≡ some (contents kb ++ bytes, k'))
          × (write block max k' out ≡ none)
    exact_read_faults out exact next more le =
        let room = sub_mul (length kb.blocks) (suc (suc kb.writestr)) block (omega arith) in
        let (k, r, a, l, there) =
          received_inside block kb bytes v pos max (omega arith)
            (reader_inside block kb v (omega arith))
            (omega (arith, room, v.writing, v.total, v.whole)) in
        let (k', r', d) = read-Drops block pos k k.readable_size a.inv in
        let all =
          take-all k.readable_size (contents k) (omega (arith, length-contents block k a.inv)) in
        let (bs, w, p) = d.position in
        let (w', p') = there exact in
        let empty : k'.readable_size ≡ 0 = omega (
          arith,
          length-contents block k' d.inv,
          ap length d.rest,
          length-drop k.readable_size (contents k),
          length-contents block k a.inv,
        ) in
        let blocks : length k'.blocks * block ≡ length kb.blocks * block =
          omega (arith, v.whole, a.inv.whole, l, ap (λ (b : List Block). length b * block) bs) in
        let further =
          lt_of_mul_lt (suc kb.writestr) (length k'.blocks) block (omega (arith, blocks, room)) in
        let (behind, start) =
          next_block block k' pos d.inv d.settled empty (p ∙ p') (omega (arith, w, w', further)) in
        let at = ap (λ (t : ℕ). t * block) (w ∙ w') in
        let space : k'.writable_size ≡ kb.writable_size - length bytes =
          omega (
            arith, d.inv.total, d.inv.writing, p, p', at, empty, l, d.buflen, v.writing, v.total,
          ) in
        (
          k,
          k',
          read_fd-received readv (some bytes) e ∙ r,
          r' ∙ ap (λ b. some (b, k')) (all ∙ a.appended),
          write_behind_faults block max k' out d.inv behind (omega (arith, space))
              (omega (arith, reusable-eq block k' d.inv, start, d.inv.total, empty, l, d.buflen)),
        )
