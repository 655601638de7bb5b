-- ===== src/Buffer/Invariant.antt =====
-- The invariant of a KBuffer, and the bytes that it holds.
use kknet.Prelude.{
  ◌==◌, ℕ, le_or_lt, suc, ◌+◌, ◌-◌, ◌*◌, ◌^◌, ◌≤◌, ◌<◌, ◌≡◌, refl, ap, ◌⊎◌, inl, inr, List, ◌++◌,
  arith, length, take, drop, length-append, length-take, length-drop, All-append, All-take,
  All-drop, Bool-cases, flat-append, eqb→eq, ltb-false, add_size, sub_size, take-append-le,
  drop-append-le, drop-drop, flat, flat-drop, length-flat, Sized,
}
use kknet.Buffer.Ops.{KBuffer, new, move_head, reusable}

-- The bytes between the reading and the writing position, oldest first.
abbrev pub contents : KBuffer → List ℕ
contents kb = take kb.readable_size (drop kb.used_size (flat kb.blocks))

pub record Inv (block : ℕ) (kb : KBuffer) : Type 0 where
  pub sized : Sized block kb.blocks
  pub reading : kb.readstr * block + kb.readable_pos ≡ kb.used_size
  pub writing : kb.writestr * block + kb.writable_pos ≡ kb.used_size + kb.readable_size
  pub total : kb.used_size + kb.readable_size + kb.writable_size ≡ kb.buflen
  pub whole : length kb.blocks * block ≡ kb.buflen
  pub read_within : kb.readable_pos ≤ block
  pub write_within : kb.writable_pos ≤ block
  pub inside : (kb.readstr < length kb.blocks) × (kb.writestr < length kb.blocks) ⊎ (kb ≡ new)
  pub small : kb.buflen < 2 ^ 64

-- The writing position is not in a block before that of the reading position.
abbrev pub IsOrdered : KBuffer → Type 0
IsOrdered kb = kb.readstr ≤ kb.writestr

-- The writing position is not the end of a block that has a next one.
abbrev pub IsSettled : ℕ → KBuffer → Type 0
IsSettled block kb = kb.writable_pos ≡ block → suc kb.writestr ≡ length kb.blocks

pub sub_mul : (w r b : ℕ) → r ≤ w → (w - r) * b + r * b ≡ w * b
sub_mul w r b h = let e : w - r + r ≡ w = omega arith in omega (arith, ap (λ (t : ℕ). t * b) e)

pub lt_of_mul_lt : (a c b : ℕ) → a * b < c * b → a < c
lt_of_mul_lt a c b h = grind arith

module _ (block : ℕ) where
  pub new-Inv : Inv block new
  new-Inv = record {
    sized = tt;
    reading = omega arith;
    writing = omega arith;
    total = omega arith;
    whole = omega arith;
    read_within = omega arith;
    write_within = omega arith;
    inside = inr refl;
    small = omega arith;
  }

  -- A settled writing position is not behind the reading position.
  pub Inv-IsOrdered : (kb : KBuffer) → Inv block kb → IsSettled block kb → IsOrdered kb
  Inv-IsOrdered kb v settled = elim v.inside [
    | inr n ↦ omega (arith, ap (λ (k : KBuffer). k.readstr) n)
    | inl lt ↦ elim (le_or_lt block kb.writable_pos) [
      | inl full ↦ omega (arith, settled (omega (arith, v.write_within)))
      | inr lt' ↦ omega (
        arith,
        lt_of_mul_lt kb.readstr (suc kb.writestr) block (omega (arith, v.reading, v.writing)),
      )
    ]
  ]

  pub length-contents : (kb : KBuffer) → Inv block kb → length (contents kb) ≡ kb.readable_size
  length-contents kb v = omega (
    arith,
    length-take kb.readable_size (drop kb.used_size (flat kb.blocks)),
    length-drop kb.used_size (flat kb.blocks),
    length-flat block kb.blocks v.sized,
    v.total,
    v.whole,
  )

  pub reusable-eq :
      (kb : KBuffer)
      → Inv block kb
      → reusable kb ≡ kb.used_size - kb.readable_pos + kb.writable_size
  reusable-eq kb v = omega (arith, v.small, v.total, v.reading)

  -- What `move_head` makes of a buffer whose first blocks have been read.
  pub record Rotates (kb m : KBuffer) : Type 0 where
    pub inv : Inv block m
    pub same : contents m ≡ contents kb
    pub head : m.readstr ≡ 0
    pub readable : m.readable_size ≡ kb.readable_size
    pub space : m.writable_size ≡ reusable kb
    pub length : m.buflen ≡ kb.buflen

  -- The buffer after `move_head` has moved blocks.
  rotated : KBuffer → KBuffer
  rotated kb = record kb {
    blocks = drop kb.readstr kb.blocks ++ take kb.readstr kb.blocks;
    readstr = 0;
    writestr = kb.writestr - kb.readstr;
    writable_size = add_size kb.writable_size (sub_size kb.used_size kb.readable_pos);
    used_size = kb.readable_pos;
  }

  module _ (kb : KBuffer) (v : Inv block kb) (ordered : IsOrdered kb)
      (lt : kb.writestr < length kb.blocks) where
    split_length :
        length (drop kb.readstr kb.blocks ++ take kb.readstr kb.blocks) ≡ length kb.blocks
    split_length = omega (
      arith,
      length-append (drop kb.readstr kb.blocks) (take kb.readstr kb.blocks),
      length-drop kb.readstr kb.blocks,
      length-take kb.readstr kb.blocks,
      ordered,
    )

    rotated-Inv : Inv block (rotated kb)
    unfolding rotated
    rotated-Inv = record {
      sized =
          All-append (λ b. length b ≡ block) (drop kb.readstr kb.blocks) (take kb.readstr kb.blocks)
            (All-drop (λ b. length b ≡ block) kb.readstr kb.blocks v.sized)
            (All-take (λ b. length b ≡ block) kb.readstr kb.blocks v.sized);
      reading = omega arith;
      writing = omega (arith, v.writing, v.reading, sub_mul kb.writestr kb.readstr block ordered);
      total = omega (arith, v.total, v.reading, v.small);
      whole = rw split_length v.whole;
      read_within = v.read_within;
      write_within = v.write_within;
      inside = inl (rw split_length (omega arith));
      small = v.small;
    }

    rotated-contents : contents (rotated kb) ≡ contents kb
    unfolding rotated
    rotated-contents =
        let front = flat (drop kb.readstr kb.blocks) in
        let moved = flat-drop block kb.readstr kb.blocks v.sized (omega (arith, ordered)) in
        let room : kb.readable_pos + kb.readable_size ≤ length front = omega (
          arith,
          ap length moved,
          length-drop (kb.readstr * block) (flat kb.blocks),
          length-flat block kb.blocks v.sized,
          v.whole,
          v.total,
          v.reading,
        ) in
        rw (
          flat-append (drop kb.readstr kb.blocks) (take kb.readstr kb.blocks),
          drop-append-le kb.readable_pos front (flat (take kb.readstr kb.blocks)) (omega arith),
          take-append-le kb.readable_size (drop kb.readable_pos front)
              (flat (take kb.readstr kb.blocks)) (omega (arith, length-drop kb.readable_pos front)),
          moved,
          drop-drop (kb.readstr * block) kb.readable_pos (flat kb.blocks),
          v.reading,
        )

  pub move_head-Rotates : (kb : KBuffer) → Inv block kb → IsOrdered kb → Rotates kb (move_head kb)
  unfolding move_head rotated
  move_head-Rotates kb v ordered = elim (Bool-cases (kb.readstr == 0)) [
    | inl e ↦
        let z = eqb→eq kb.readstr 0 e in
        rw e (record {
          inv = v;
          same = refl;
          head = z;
          readable = refl;
          space =
              let y = ap (λ (t : ℕ). t * block) z in omega (arith, v.reading, v.small, v.total, y);
          length = refl;
        })
    | inr e ↦ elim v.inside [
      | inr n ↦ cc (ap (λ (k : KBuffer). k.readstr == 0) n)
      | inl lt ↦
          rw (e, ltb-false kb.writestr kb.readstr ordered)
            (record {
              inv = rotated-Inv kb v ordered lt.1;
              same = rotated-contents kb v ordered lt.1;
              head = refl;
              readable = refl;
              space = omega arith;
              length = refl;
            })
    ]
  ]
