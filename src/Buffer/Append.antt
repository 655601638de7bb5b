-- ===== src/Buffer/Append.antt =====
-- What `write` does with the bytes that it is given, by their number.
use kknet.Prelude.{
  ℕ, ◌+◌, ◌-◌, ◌*◌, ◌^◌, ◌≤◌, ◌<◌, ◌≡◌, refl, ap, ◌∙◌, ◌⊎◌, inl, inr, le_or_lt, some, List, [], ◌∷◌,
  ◌++◌, arith, length, eqb-false, ltb-false, ltb-true, leb-true, leb-false, sub_size, sub_size-eq,
}
use kknet.Buffer.Walk.{do_write_first, settle}
use kknet.Buffer.Ops.{KBuffer, new, move_head, do_write, make_space, reusable, write}
use kknet.Buffer.Invariant.{
  contents, Inv, IsOrdered, new-Inv, reusable-eq, Rotates, move_head-Rotates,
}
use kknet.Buffer.Writing.{Wrote, do_write-Wrote}
use kknet.Buffer.Growing.{make_space-Spaced}

-- `write` takes `size` bytes: there is room behind the head, or new blocks may be added for them.
abbrev pub Accepts : ℕ → KBuffer → ℕ → Type 0
Accepts max kb size = (size ≤ reusable kb) ⊎ ((kb.buflen < max) × (size + reusable kb ≤ max))

abbrev pub Refuses : ℕ → KBuffer → ℕ → Type 0
Refuses max kb size = (reusable kb < size) × ((max ≤ kb.buflen) ⊎ (max < size + reusable kb))

module _ (block max : ℕ) (pos : 0 < block) (fits : 2 * max + block < 2 ^ 64) where
  do_write-new :
      (k : KBuffer) × (do_write block new [] ≡ some k) × Wrote block new [] k × (k.buflen ≡ 0)
  unfolding do_write do_write_first settle
  do_write-new = (
    new,
    rw (eqb-false 0 block (omega arith)),
    record {
      inv = new-Inv block;
      settled = λ e. absurd (omega arith);
      ordered = omega arith;
      appended = refl;
    },
    refl,
  )

  -- `do_write` with room behind the writing position, also in a buffer with no block.
  do_write_fits :
      (kb : KBuffer) (bytes : List ℕ)
      → Inv block kb
      → IsOrdered kb
      → length bytes ≤ kb.writable_size
      → (k : KBuffer) × (do_write block kb bytes ≡ some k)
        × Wrote block kb bytes k
        × (k.buflen ≡ kb.buflen)
  do_write_fits kb [] v ordered room = elim v.inside [
    | inl lt ↦ do_write-Wrote block pos kb [] v ordered lt.1 room
    | inr n ↦ rw n do_write-new
  ]
  do_write_fits kb (x ∷ bytes) v ordered room = elim v.inside [
    | inl lt ↦ do_write-Wrote block pos kb (x ∷ bytes) v ordered lt.1 room
    | inr n ↦ absurd (omega (arith, ap (λ (k : KBuffer). k.writable_size) n))
  ]

  -- What an accepted `write` leaves: a buffer with the bytes behind the others, longer by less than
  -- `size + block`, and only if new blocks were needed.
  pub record Accepted (kb : KBuffer) (bytes : List ℕ) (k : KBuffer) : Type 0 where
    pub wrote : Wrote block kb bytes k
    pub bounded :
        ((length bytes ≤ reusable kb) × (k.buflen ≡ kb.buflen))
        ⊎ ((reusable kb < length bytes)
            × (kb.buflen + length bytes ≤ k.buflen)
            × (k.buflen < kb.buflen + length bytes + block))

  module _ (kb : KBuffer) (bytes : List ℕ) (v : Inv block kb) (ordered : IsOrdered kb) where
    rotation : Rotates block kb (move_head kb)
    rotation = move_head-Rotates block kb v ordered

    write_reuses :
        length bytes ≤ reusable kb
        → (k : KBuffer) × (write block max kb bytes ≡ some (length bytes, k)) × Accepted kb bytes k
    unfolding write
    write_reuses h = elim (le_or_lt (length bytes) kb.writable_size) [
      | inl le ↦
          let (k, e, w, l) = do_write_fits kb bytes v ordered le in
          (
            k,
            rw (
              ltb-false (reusable kb) (length bytes) h,
              leb-true (length bytes) kb.writable_size le,
              e,
            ),
            record { wrote = w; bounded = inl (h, l) },
          )
      | inr lt ↦
          let (k, e, w, l) =
            do_write_fits (move_head kb) bytes rotation.inv (omega (arith, rotation.head))
              (rw rotation.space h) in
          (
            k,
            rw (
              ltb-false (reusable kb) (length bytes) h,
              leb-false (length bytes) kb.writable_size lt,
              leb-true (length bytes) (reusable kb) h,
              e,
            ),
            record {
              wrote = record {
                inv = w.inv;
                settled = w.settled;
                ordered = w.ordered;
                appended = w.appended ∙ ap (λ c. c ++ bytes) rotation.same;
              };
              bounded = inl (h, l ∙ rotation.length);
            },
          )
    ]

    write_grown :
        (k : KBuffer)
        → reusable kb < length bytes
        → kb.buflen < max
        → length bytes + reusable kb ≤ max
        → do_write block (make_space block (move_head kb) (length bytes)) bytes ≡ some k
        → write block max kb bytes ≡ some (length bytes, k)
    unfolding write
    write_grown k lt small h e =
        let open_space : sub_size max (move_head kb).writable_size ≡ max - reusable kb =
          rw rotation.space (sub_size-eq max (reusable kb) (omega arith) (omega arith)) in
        rw (
          ltb-true (reusable kb) (length bytes) lt,
          leb-false max kb.buflen small,
          leb-false (length bytes) kb.writable_size (omega (arith, reusable-eq block kb v)),
          leb-false (length bytes) (reusable kb) lt,
          open_space,
          ltb-false (max - reusable kb) (length bytes) (omega arith),
          e,
        )

    write_grows :
        reusable kb < length bytes
        → kb.buflen < max
        → length bytes + reusable kb ≤ max
        → (k : KBuffer) × (write block max kb bytes ≡ some (length bytes, k)) × Accepted kb bytes k
    write_grows lt small h =
        let r = rotation in
        let m = move_head kb in
        let g =
          make_space-Spaced block pos m (length bytes) (omega arith) r.inv
            (omega (arith, r.length)) in
        let (k, e, w, l) =
          do_write_fits (make_space block m (length bytes)) bytes g.inv
            (g.ordered (omega (arith, r.head))) (omega (arith, g.space)) in
        (
          k,
          write_grown k lt small h e,
          record {
            wrote = record {
              inv = w.inv;
              settled = w.settled;
              ordered = w.ordered;
              appended = w.appended ∙ ap (λ c. c ++ bytes) (g.same ∙ r.same);
            };
            bounded = inr (
              lt,
              omega (arith, g.space, g.balance, l, r.length),
              omega (arith, g.bounded, l, r.length),
            );
          },
        )

    -- On a KBuffer in order and not written behind its reading position, `write` takes bytes that
    -- fit into the room it can reuse, or that fit below the maximum together with that room while
    -- the buffer is smaller than the maximum: it returns their number, and the bytes stand behind
    -- those that were there, in a KBuffer in order and settled, with at most the blocks needed.
    pub write-Accepted :
        Accepts max kb (length bytes)
        → (k : KBuffer) × (write block max kb bytes ≡ some (length bytes, k)) × Accepted kb bytes k
    write-Accepted (inl h) = write_reuses h
    write-Accepted (inr (small, h)) = elim (le_or_lt (length bytes) (reusable kb)) [
      | inl le ↦ write_reuses le
      | inr lt ↦ write_grows lt small h
    ]

    -- On such a KBuffer, bytes that do not fit into the room it can reuse are refused when the
    -- buffer has the maximum or when they exceed it together with that room: `write` returns 0, and
    -- the KBuffer is in order with the same bytes and the same length.
    pub write-Refuses :
        Refuses max kb (length bytes)
        → (k : KBuffer) × (write block max kb bytes ≡ some (0, k))
          × Inv block k
          × IsOrdered k
          × (contents k ≡ contents kb)
          × (k.buflen ≡ kb.buflen)
    unfolding write
    write-Refuses (lt, why) = elim (le_or_lt max kb.buflen) [
      | inl full ↦ (
        kb,
        rw (ltb-true (reusable kb) (length bytes) lt, leb-true max kb.buflen full),
        v,
        ordered,
        refl,
        refl,
      )
      | inr small ↦
          let r = rotation in
          let m = move_head kb in
          let open_space : sub_size max m.writable_size ≡ max - reusable kb = rw r.space (
            sub_size-eq max (reusable kb) (omega arith)
              (omega (arith, reusable-eq block kb v, v.total, v.reading))) in
          (
            m,
            rw (
              ltb-true (reusable kb) (length bytes) lt,
              leb-false max kb.buflen small,
              leb-false (length bytes) kb.writable_size (omega (arith, reusable-eq block kb v)),
              leb-false (length bytes) (reusable kb) lt,
              open_space,
              ltb-true (max - reusable kb) (length bytes) (omega arith),
            ),
            r.inv,
            omega (arith, r.head),
            r.same,
            r.length,
          )
    ]
