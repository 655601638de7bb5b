-- ===== src/Buffer/Fifo.antt =====
-- A KBuffer against a queue of bytes.
use kknet.Prelude.{
  ℕ, ◌+◌, ◌*◌, ◌^◌, ◌≤◌, ◌<◌, ◌≡◌, refl, sym, inl, inr, le_or_lt, Option, some, List, [], ◌∷◌, ◌++◌,
  arith, length, take, drop, ◌>>=◌, subst,
}
use kknet.Buffer.Ops.{KBuffer, write, read, reusable}
use kknet.Buffer.Invariant.{
  contents, Inv-IsOrdered, Inv, IsOrdered, IsSettled, length-contents, reusable-eq,
}
use kknet.Buffer.Consume.{read-Drops, Drops-IsSettled}
use kknet.Buffer.Append.{Accepts, write-Accepted}

-- A client's calls, and what each returns.
pub data Call : Type 0 where
  writes : List ℕ → Call
  reads : ℕ → Call

pub data Reply : Type 0 where
  wrote : ℕ → Reply
  got : List ℕ → Reply

module _ (block max : ℕ) where
  unfoldable pub run : KBuffer → List Call → Option (List Reply)
  run kb [] = some []
  run kb (writes bytes ∷ calls) =
      write block max kb bytes >>= λ r. run r.1 calls >>= λ rs. some (wrote r.0 ∷ rs)
  run kb (reads n ∷ calls) = read block kb n >>= λ r. run r.1 calls >>= λ rs. some (got r.0 ∷ rs)

-- The same calls on a queue of bytes without a bound.
unfoldable pub queue_run : List ℕ → List Call → List Reply
queue_run q [] = []
queue_run q (writes bytes ∷ calls) = wrote (length bytes) ∷ queue_run (q ++ bytes) calls
queue_run q (reads n ∷ calls) = got (take n q) ∷ queue_run (drop n q) calls

module _ (block max : ℕ) where
  -- Each write is at most half of the maximum, and leaves a block of it free.
  abbrev pub Fits : List ℕ → List Call → Type 0
  Fits q [] = Unit {0}
  Fits q (writes bytes ∷ calls) =
      (2 * length bytes ≤ max) × (length q + length bytes + block ≤ max) × Fits (q ++ bytes) calls
  Fits q (reads n ∷ calls) = Fits (drop n q) calls

module _ (block max : ℕ) (pos : 0 < block) (fits : 2 * max + block < 2 ^ 64) where
  small-Accepts :
      (kb : KBuffer) (size : ℕ)
      → Inv block kb
      → 2 * size ≤ max
      → length (contents kb) + size + block ≤ max
      → Accepts max kb size
  small-Accepts kb size v half room = elim (le_or_lt size (reusable kb)) [
    | inl le ↦ inl le
    | inr lt ↦ inr (
      omega (
        arith,
        length-contents block kb v,
        reusable-eq block kb v,
        v.total,
        v.reading,
        v.read_within,
      ),
      omega arith,
    )
  ]

  -- From a KBuffer in order, settled, whose writing position is not before its reading position,
  -- writes and reads get the replies that a queue of its bytes gives, without a fault. Each write
  -- has to be at most half of the maximum and to leave, with the bytes stored, a block of it free.
  -- The block is not empty, and twice the maximum and a block fit in a size_t.
  pub run-eq-queue_run :
      (kb : KBuffer) (calls : List Call)
      → Inv block kb
      → IsOrdered kb
      → IsSettled block kb
      → Fits block max (contents kb) calls
      → run block max kb calls ≡ some (queue_run (contents kb) calls)
  unfolding run queue_run
  run-eq-queue_run kb [] v o s f = refl
  run-eq-queue_run kb (writes bytes ∷ calls) v o s f =
      let (k, e, a) =
        write-Accepted block max pos fits kb bytes v o
          (small-Accepts kb (length bytes) v f.0 f.1) in
      let w = a.wrote in
      let rest =
        run-eq-queue_run k calls w.inv w.ordered w.settled
          (subst (λ q. Fits block max q calls) (sym w.appended) f.2) in
      rw (e, rest, w.appended)
  run-eq-queue_run kb (reads n ∷ calls) v o s f =
      let (k, e, d) = read-Drops block pos kb n v in
      let settled = Drops-IsSettled block pos kb k n d s in
      let rest =
        run-eq-queue_run k calls d.inv (Inv-IsOrdered block k d.inv settled) settled
          (subst (λ q. Fits block max q calls) (sym d.rest) f) in
      rw (e, rest, d.rest)
