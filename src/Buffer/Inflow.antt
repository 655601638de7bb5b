-- ===== src/Buffer/Inflow.antt =====
-- The input buffer of a connection, which `readFd` fills and reading empties, against a queue of
-- bytes.
use kknet.Prelude.{
  ℕ, ◌+◌, ◌-◌, ◌*◌, ◌^◌, ◌≤◌, ◌<◌, ◌≡◌, refl, sym, inl, inr, le_or_lt, Option, none, some, List, [],
  ◌∷◌, ◌++◌, arith, length, take, drop, ◌>>=◌, subst,
}
use kknet.Buffer.Ops.{KBuffer, read}
use kknet.Buffer.Invariant.{contents, Inv, length-contents}
use kknet.Buffer.Consume.{read-Drops}
use kknet.Buffer.Receive.{received, read_fd}
use kknet.Buffer.Scatter.{Added}
use kknet.Buffer.Received.{Takes}
use kknet.Buffer.Incoming.{read_fd-Added, read_fd-received}

-- `readFd` when readv gets these bytes, `readFd` when it fails, and `read`.
pub data Call : Type 0 where
  receives : List ℕ → Call
  fails : Call
  reads : ℕ → Call

pub data Reply : Type 0 where
  count : Option ℕ → Reply
  got : List ℕ → Reply

module _ (block max : ℕ) where
  unfoldable pub run : KBuffer → List Call → Option (List Reply)
  unfolding read_fd
  run kb [] = some []
  run kb (receives bytes ∷ calls) = read_fd block max kb (λ areas. some bytes) >>= λ r.
      run r.1 calls >>= λ rs. some (count r.0 ∷ rs)
  run kb (fails ∷ calls) =
      read_fd block max kb (λ areas. none) >>= λ r. run r.1 calls >>= λ rs. some (count r.0 ∷ rs)
  run kb (reads n ∷ calls) = read block kb n >>= λ r. run r.1 calls >>= λ rs. some (got r.0 ∷ rs)

  -- The bytes received, with those stored, leave as much room again and two blocks.
  abbrev pub Fits : List ℕ → List Call → Type 0
  Fits q [] = Unit {0}
  Fits q (receives bytes ∷ calls) =
      (length q + 2 * length bytes + 2 * block ≤ max) × Fits (q ++ bytes) calls
  Fits q (fails ∷ calls) = Fits q calls
  Fits q (reads n ∷ calls) = Fits (drop n q) calls

-- The same calls on a queue of bytes.
unfoldable pub queue_run : List ℕ → List Call → List Reply
queue_run q [] = []
queue_run q (receives bytes ∷ calls) = count (some (length bytes)) ∷ queue_run (q ++ bytes) calls
queue_run q (fails ∷ calls) = count none ∷ queue_run q calls
queue_run q (reads n ∷ calls) = got (take n q) ∷ queue_run (drop n q) calls

module _ (block max : ℕ) (pos : 0 < block) (fits : 2 * max + block < 2 ^ 64) where
  fits-Takes :
      (kb : KBuffer) (size : ℕ)
      → Inv block kb
      → kb.buflen ≤ max
      → length (contents kb) + 2 * size + 2 * block ≤ max
      → Takes max kb size
  fits-Takes kb size v small h =
      elim (le_or_lt size (kb.writable_size + (kb.used_size - kb.readable_pos))) [
        | inl le ↦ inl le
        | inr lt ↦ inr (
          omega (arith, length-contents block kb v, v.total, v.reading, v.read_within),
          omega arith,
        )
      ]

  stays_small :
      (kb k : KBuffer) (bytes : List ℕ)
      → Inv block kb
      → kb.buflen ≤ max
      → length (contents kb) + 2 * length bytes + 2 * block ≤ max
      → Added block kb bytes k
      → k.buflen ≤ max
  stays_small kb k bytes v small h a = elim a.bounded [
    | inl same ↦ omega arith
    | inr (more, less) ↦
        omega (arith, length-contents block kb v, v.total, v.reading, v.read_within)
  ]

  -- From a KBuffer in order and not longer than the maximum, calls of `readFd` and of `read` get the
  -- replies that a queue of its bytes gives, without a fault, wherever in its block a call of `readFd`
  -- ends. With the bytes stored, twice those received and two blocks have to be within the maximum. A
  -- `readFd` that fails has no result and changes nothing. The block is not empty, and twice the maximum
  -- and a block fit in a size_t.
  pub run-eq-inflow :
      (kb : KBuffer) (calls : List Call)
      → Inv block kb
      → kb.buflen ≤ max
      → Fits block max (contents kb) calls
      → run block max kb calls ≡ some (queue_run (contents kb) calls)
  unfolding run queue_run received
  run-eq-inflow kb [] v small f = refl
  run-eq-inflow kb (receives bytes ∷ calls) v small f =
      let (k, e, a) =
        read_fd-Added block max pos kb v small fits (λ areas. some bytes) bytes refl
          (fits-Takes kb (length bytes) v small f.0) in
      let rest =
        run-eq-inflow k calls a.inv (stays_small kb k bytes v small f.0 a)
          (subst (λ q. Fits block max q calls) (sym a.appended) f.1) in
      rw (e, rest, a.appended)
  run-eq-inflow kb (fails ∷ calls) v small f =
      let e = read_fd-received block max pos kb v small (λ areas. none) none refl in
      let rest = run-eq-inflow kb calls v small f in rw (e, rest)
  run-eq-inflow kb (reads n ∷ calls) v small f =
      let (k, e, d) = read-Drops block pos kb n v in
      let rest =
        run-eq-inflow k calls d.inv (omega (arith, d.buflen))
          (subst (λ q. Fits block max q calls) (sym d.rest) f) in
      rw (e, rest, d.rest)
