-- ===== src/Buffer/Consume.antt =====
-- `peek`, `retrieve` and `read`, and the bytes that a KBuffer holds.
use kknet.Prelude.{
  ℕ, suc, ◌+◌, ◌*◌, ◌≤◌, ◌<◌, ◌≡◌, refl, sym, ap, ◌∙◌, inl, inr, le_or_lt, some, List, arith,
  length, take, drop, length-drop, All-drop, eqb-false, ltb-false, ltb-true, add_size, sub_size,
  add_size-eq, sub_size-eq, drop-all, drop-take, drop-drop, take-take, take-all, flat-drop, flat,
}
use kknet.Buffer.Walk.{retrieve_first, settle}
use kknet.Buffer.Ops.{KBuffer, new, clip, peek, retrieve, read}
use kknet.Buffer.Reading.{peek_first-flat, retrieve_first-Moves, settle-Settles}
use kknet.Buffer.Invariant.{contents, Inv, IsSettled, sub_mul, new-Inv, length-contents}

clip-le : (len : ℕ) (kb : KBuffer) → clip len kb ≤ kb.readable_size
clip-le len kb = ground arith

drop-clip :
    (len : ℕ) (kb : KBuffer) (bytes : List ℕ)
    → length bytes ≡ kb.readable_size
    → drop (clip len kb) bytes ≡ drop len bytes
drop-clip len kb bytes e = elim (le_or_lt len kb.readable_size) [
  | inl le ↦ rw (ltb-false kb.readable_size len le)
  | inr lt ↦ rw (
    ltb-true kb.readable_size len lt,
    drop-all kb.readable_size bytes (omega arith),
    drop-all len bytes (omega arith),
  )
]

take-clip :
    (len : ℕ) (kb : KBuffer) (bytes : List ℕ)
    → length bytes ≡ kb.readable_size
    → take (clip len kb) bytes ≡ take len bytes
take-clip len kb bytes e = elim (le_or_lt len kb.readable_size) [
  | inl le ↦ rw (ltb-false kb.readable_size len le)
  | inr lt ↦ rw (
    ltb-true kb.readable_size len lt,
    take-all kb.readable_size bytes (omega arith),
    take-all len bytes (omega arith),
  )
]

module _ (block : ℕ) where
  pub read_inside : (kb : KBuffer) → Inv block kb → kb.readstr ≤ length kb.blocks
  read_inside kb v = elim v.inside [
    | inl lt ↦ omega arith
    | inr n ↦ omega (arith, ap (λ (k : KBuffer). k.readstr) n)
  ]

  room_ahead :
      (kb : KBuffer) (l : ℕ)
      → Inv block kb
      → l ≤ kb.readable_size
      → kb.readable_pos + l ≤ length (drop kb.readstr kb.blocks) * block
  room_ahead kb l v h = omega (
    arith,
    ap (λ (t : ℕ). t * block) (length-drop kb.readstr kb.blocks),
    sub_mul (length kb.blocks) kb.readstr block (read_inside kb v),
    v.reading,
    v.total,
    v.whole,
  )

  -- `peek` reads the oldest bytes, as many as there are.
  pub peek-contents :
      (kb : KBuffer) (size : ℕ) → Inv block kb → peek block kb size ≡ some (take size (contents kb))
  unfolding peek
  peek-contents kb size v =
      let window : take (clip size kb) (drop kb.readable_pos (flat (drop kb.readstr kb.blocks)))
          ≡ take (clip size kb) (contents kb) =
        rw (
          flat-drop block kb.readstr kb.blocks v.sized (read_inside kb v),
          drop-drop (kb.readstr * block) kb.readable_pos (flat kb.blocks),
          v.reading,
          take-take (clip size kb) kb.readable_size (drop kb.used_size (flat kb.blocks))
              (clip-le size kb),
        ) in
      peek_first-flat block (drop kb.readstr kb.blocks) kb.readable_pos (clip size kb)
        (All-drop (λ b. length b ≡ block) kb.readstr kb.blocks v.sized) v.read_within
        (room_ahead kb (clip size kb) v (clip-le size kb))
      ∙ ap some (window ∙ take-clip size kb (contents kb) (length-contents block kb v))

  -- The buffer that `retrieve` leaves.
  passed : KBuffer → ℕ → ℕ × ℕ → KBuffer
  passed kb l at = record kb {
    readstr = at.0;
    readable_pos = at.1;
    readable_size = sub_size kb.readable_size l;
    used_size = add_size kb.used_size l;
  }

  module _ (kb : KBuffer) (l : ℕ) (at : ℕ × ℕ) (v : Inv block kb) (le : l ≤ kb.readable_size) where
    passed-contents : contents (passed kb l at) ≡ drop l (contents kb)
    unfolding passed
    passed-contents = rw (
      add_size-eq kb.used_size l (omega (arith, v.total, v.small)),
      sub_size-eq kb.readable_size l (omega (arith, v.total, v.small)) le,
      ← drop-drop kb.used_size l (flat kb.blocks),
      drop-take l kb.readable_size (drop kb.used_size (flat kb.blocks)),
    )

    passed-Inv :
        at.0 * block + at.1 ≡ kb.used_size + l
        → at.1 ≤ block
        → at.0 < length kb.blocks
        → kb.writestr < length kb.blocks
        → Inv block (passed kb l at)
    unfolding passed
    passed-Inv place within reader lt = record {
      sized = v.sized;
      reading = omega (arith, v.total, v.small);
      writing = omega (arith, v.writing, v.total, v.small);
      total = omega (arith, v.total, v.small);
      whole = v.whole;
      read_within = within;
      write_within = v.write_within;
      inside = inl (reader, lt);
      small = v.small;
    }

  -- What `retrieve` does.
  pub record Drops (kb : KBuffer) (l : ℕ) (k : KBuffer) : Type 0 where
    pub inv : Inv block k
    pub position :
        (k.blocks ≡ kb.blocks) × (k.writestr ≡ kb.writestr) × (k.writable_pos ≡ kb.writable_pos)
    pub rest : contents k ≡ drop l (contents kb)
    pub buflen : k.buflen ≡ kb.buflen
    -- The reading position is not the end of a block that has a next one.
    pub settled : k.readable_pos ≡ block → suc k.readstr ≡ length k.blocks

  module _ (pos : 0 < block) where
    retrieve-new : (len : ℕ) → retrieve block new len ≡ some new
    unfolding retrieve retrieve_first settle
    retrieve-new len =
        let z : clip len new ≡ 0 = omega (arith, clip-le len new) in
        rw (z, eqb-false 0 block (omega arith))

    retrieve_inside :
        (kb : KBuffer) (len : ℕ)
        → Inv block kb
        → kb.writestr < length kb.blocks
        → kb.readstr < length kb.blocks
        → (k : KBuffer) × (retrieve block kb len ≡ some k) × Drops kb (clip len kb) k
    unfolding retrieve passed
    retrieve_inside kb len v lt reader =
        let l = clip len kb in
        let le = clip-le len kb in
        let rest = length-drop kb.readstr kb.blocks in
        let (m, em, place, within, inside) =
          retrieve_first-Moves block (drop kb.readstr kb.blocks) kb.readable_pos l v.read_within
            (room_ahead kb l v le) (omega (arith, rest)) in
        let (at, ea, place', within', inside', after, last) =
          settle-Settles block (length kb.blocks) (kb.readstr + m.walked) m.pos pos within
            (omega (arith, rest)) in
        let there : at.0 * block + at.1 ≡ kb.used_size + l =
          omega (arith, place, place', v.reading) in
        (
          passed kb l at,
          rw (em, ea),
          record {
            inv = passed-Inv kb l at v le there within' inside' lt;
            position = (refl, refl, refl);
            rest = passed-contents kb l at v le;
            buflen = refl;
            settled = last;
          },
        )

    -- `retrieve` and `read` leave the writing position where it was.
    pub Drops-IsSettled :
        (kb k : KBuffer) (l : ℕ) → Drops kb l k → IsSettled block kb → IsSettled block k
    Drops-IsSettled kb k l d settled e =
        let (b, w, p) = d.position in ap suc w ∙ settled (sym p ∙ e) ∙ ap length (sym b)

    -- `retrieve` drops the oldest bytes, as many as there are.
    pub retrieve-Drops :
        (kb : KBuffer) (len : ℕ)
        → Inv block kb
        → (k : KBuffer) × (retrieve block kb len ≡ some k) × Drops kb len k
    retrieve-Drops kb len v = elim v.inside [
      | inl lt ↦
          let (k, e, d) = retrieve_inside kb len v lt.1 lt.0 in
          (
            k,
            e,
            record {
              inv = d.inv;
              position = d.position;
              rest = d.rest ∙ drop-clip len kb (contents kb) (length-contents block kb v);
              buflen = d.buflen;
              settled = d.settled;
            },
          )
      | inr n ↦ (
        new,
        rw n (retrieve-new len),
        record {
          inv = new-Inv block;
          position = (
            ap (λ (k : KBuffer). k.blocks) (sym n),
            ap (λ (k : KBuffer). k.writestr) (sym n),
            ap (λ (k : KBuffer). k.writable_pos) (sym n),
          );
          rest = sym (
              drop-all len (contents kb) (
                omega
                  (arith, length-contents block kb v, ap (λ (k : KBuffer). k.readable_size) n)));
          buflen = ap (λ (k : KBuffer). k.buflen) (sym n);
          settled = λ e. absurd (omega arith);
        },
      )
    ]

    -- On a KBuffer in order with blocks that are not empty, `read` returns the oldest bytes, as
    -- many as there are of those asked for, and leaves the others, in a KBuffer in order of the
    -- same length.
    pub read-Drops :
        (kb : KBuffer) (size : ℕ)
        → Inv block kb
        → (k : KBuffer) × (read block kb size ≡ some (take size (contents kb), k)) × Drops kb size k
    unfolding read
    read-Drops kb size v =
        let (k, e, d) = retrieve-Drops kb size v in (k, rw (peek-contents kb size v, e), d)
