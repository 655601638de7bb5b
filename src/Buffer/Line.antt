-- ===== src/Buffer/Line.antt =====
-- The line that `getLine` reads.
use mathlib.Core.Option
use kknet.Prelude.{
  ℕ, zero, suc, ◌+◌, ◌-◌, ◌*◌, ◌≤◌, ◌<◌, ◌≡◌, refl, sym, ap, ◌∙◌, inl, inr, Option, none, some,
  true, false, List, [], ◌∷◌, ◌++◌, length, take, drop, get_elem?, leb, ◌==◌, if◌then◌else◌,
  All-drop, arith, flat, flat-drop, length-flat, length-drop, length-take, subst, eqb→eq, ◌⊎◌,
  drop-drop, Sized, leb-true, leb-false, Bool-cases, Option-cases,
}
use kknet.Buffer.Walk.{Block}
use kknet.Buffer.Ops.{KBuffer}
use kknet.Buffer.Invariant.{contents, Inv}
use kknet.Buffer.Consume.{read_inside, Drops, read-Drops}
use kknet.Buffer.Scan.{next_char, scan_line, get_line}

-- The length of the first line with its end, if it has one.
unfoldable pub line_length : List ℕ → Option ℕ
line_length [] = none
line_length (x ∷ xs) = if x == 10 then some 1 else Option.map suc (line_length xs)

char_at :
    (b m : List ℕ) (p : ℕ)
    → p < length b
    → (ch : ℕ) × (get_elem? b p ≡ some ch) × (drop p (b ++ m) ≡ ch ∷ drop (suc p) (b ++ m))
char_at [] m p lt = absurd (omega arith)
char_at (x ∷ b) m zero lt = (x, refl, refl)
char_at (x ∷ b) m (suc p) lt = char_at b m p (omega arith)

drop-length : (b m : List ℕ) → drop (length b) (b ++ m) ≡ m
drop-length [] m = refl
drop-length (x ∷ b) m = drop-length b m

full_block : (b m : List ℕ) (p : ℕ) → length b ≡ p → drop p (b ++ m) ≡ m
full_block b m p e = subst (λ (k : ℕ). drop k (b ++ m) ≡ m) e (drop-length b m)

map-zero : (o : Option ℕ) → Option.map (λ (k : ℕ). k + 0) o ≡ o
map-zero none = refl
map-zero (some k) = ap some (omega arith)

map-shift :
    (o : Option ℕ) (i : ℕ)
    → Option.map (λ (k : ℕ). k + suc i) o ≡ Option.map (λ (k : ℕ). k + i) (Option.map suc o)
map-shift none i = refl
map-shift (some k) i = ap some (omega arith)

module _ (block : ℕ) (pos : 0 < block) where
  next-flat :
      (b : Block) (bs : List Block) (p : ℕ)
      → length b ≡ block
      → let next = next_char block (b ∷ bs) (suc p) in
        drop next.1 (flat next.0) ≡ drop (suc p) (b ++ flat bs)
  next-flat b bs p e = elim (Bool-cases (suc p == block)) [
    | inl end ↦ rw end (sym (full_block b (flat bs) (suc p) (e ∙ sym (eqb→eq (suc p) block end))))
    | inr more ↦ rw more refl
  ]

  next-within :
      (b : Block) (bs : List Block) (p : ℕ)
      → Sized block (b ∷ bs)
      → p < block
      → let next = next_char block (b ∷ bs) (suc p) in Sized block next.0 × (next.1 < block)
  next-within b bs p s lt = elim (Bool-cases (suc p == block)) [
    | inl end ↦ rw end (s.1, pos)
    | inr more ↦ rw more (s, ground arith)
  ]

  scan_more :
      (i size : ℕ) (xs : List ℕ) (rest : Option (Option ℕ))
      → size ≡ i + suc (length xs)
      → (0 < length xs → rest ≡ some (Option.map (λ (k : ℕ). k + suc i) (line_length xs)))
      → (if leb size (suc i) then some none else rest)
        ≡ some (Option.map (λ (k : ℕ). k + i) (Option.map suc (line_length xs)))
  unfolding line_length
  scan_more i size [] rest e h = rw (leb-true size (suc i) (omega arith)) refl
  scan_more i size (x ∷ xs) rest e h =
      rw (leb-false size (suc i) (omega arith), h (omega arith))
        (ap some (map-shift (line_length (x ∷ xs)) i))

  -- One round on a character that is there, when `rest` is what the next rounds find.
  scan_round :
      (ch i size : ℕ) (xs : List ℕ) (rest : Option (Option ℕ))
      → size ≡ i + suc (length xs)
      → (0 < length xs → rest ≡ some (Option.map (λ (k : ℕ). k + suc i) (line_length xs)))
      → (if ch == 10 then some (some (suc i)) else if leb size (suc i) then some none else rest)
        ≡ some (Option.map (λ (k : ℕ). k + i) (line_length (ch ∷ xs)))
  unfolding line_length
  scan_round ch i size xs rest e h = elim (Bool-cases (ch == 10)) [
    | inl end ↦ rw end (ap (λ (k : ℕ). some (some k)) (omega arith))
    | inr more ↦ rw more (scan_more i size xs rest e h)
  ]

  scan_line-flat :
      (fuel n i size p : ℕ) (bs : List Block)
      → size ≡ i + suc n
      → n < fuel
      → Sized block bs
      → p < block
      → suc n ≤ length (drop p (flat bs))
      → scan_line block fuel bs p i size
        ≡ some (Option.map (λ (k : ℕ). k + i) (line_length (take (suc n) (drop p (flat bs)))))
  unfolding scan_line
  scan_line-flat zero n i size p bs e f s lt room = absurd (omega arith)
  scan_line-flat (suc fuel) n i size p [] e f s lt room =
      absurd (omega (arith, length-drop {A = ℕ} p []))
  scan_line-flat (suc fuel) n i size p (b ∷ bs) e f s lt room =
      let (ch, at, split) = char_at b (flat bs) p (omega (arith, s.0)) in
      let xs = drop (suc p) (b ++ flat bs) in
      let enough : n ≤ length xs = omega (arith, ap length split) in
      rw (at, split)
        (scan_round ch i size (take n xs) _ (omega (arith, length-take n xs)) (λ more.
          let some_left : 0 < n = omega (arith, more, length-take n xs) in
          let ahead = next-flat b bs p s.0 in
          let within = next-within b bs p s lt in
          let next = next_char block (b ∷ bs) (suc p) in
          scan_line-flat fuel (n - 1) (suc i) size next.1 next.0 (omega arith) (omega arith)
            within.0 within.1 (omega (arith, ap length ahead))
          ∙ ap
              (λ (ys : List ℕ).
                some (Option.map (λ (k : ℕ). k + suc i) (line_length (take (suc (n - 1)) ys))))
              ahead
          ∙ ap (λ (m : ℕ). some (Option.map (λ (k : ℕ). k + suc i) (line_length (take m xs))))
              {x = suc (n - 1)} {y = n} (omega arith)))

  -- Where the search starts: from the end of a block at the start of the next one.
  start-flat :
      (bs : List Block) (p : ℕ)
      → Sized block bs
      → p ≤ block
      → 0 < length (drop p (flat bs))
      → let start = next_char block bs p in
        Sized block start.0 × (start.1 < block) × (drop start.1 (flat start.0) ≡ drop p (flat bs))
  start-flat [] p s le room = absurd (omega (arith, length-drop {A = ℕ} p []))
  start-flat (b ∷ bs) p s le room = elim (Bool-cases (p == block)) [
    | inl end ↦ rw end (s.1, pos, sym (full_block b (flat bs) p (s.0 ∙ sym (eqb→eq p block end))))
    | inr more ↦ rw more (s, ground arith, refl)
  ]

  ahead_of :
      (kb : KBuffer)
      → Inv block kb
      → drop kb.readable_pos (flat (drop kb.readstr kb.blocks)) ≡ drop kb.used_size (flat kb.blocks)
  ahead_of kb v =
      rw
        (
          flat-drop block kb.readstr kb.blocks v.sized (read_inside block kb v),
          drop-drop (kb.readstr * block) kb.readable_pos (flat kb.blocks),
          v.reading,
        )
        refl

  found :
      (kb : KBuffer)
      → Inv block kb
      → 0 < kb.readable_size
      → let start = next_char block (drop kb.readstr kb.blocks) kb.readable_pos in
        scan_line block (suc kb.readable_size) start.0 start.1 0 kb.readable_size
        ≡ some (line_length (contents kb))
  found kb v some_bytes =
      let start = next_char block (drop kb.readstr kb.blocks) kb.readable_pos in
      let same = ahead_of kb v in
      let room : kb.readable_size ≤ length (drop kb.used_size (flat kb.blocks)) = omega (
        arith,
        length-drop kb.used_size (flat kb.blocks),
        length-flat block kb.blocks v.sized,
        v.total,
        v.whole,
      ) in
      let (sized, within, at) =
        start-flat (drop kb.readstr kb.blocks) kb.readable_pos
          (All-drop (λ b. length b ≡ block) kb.readstr kb.blocks v.sized) v.read_within
          (omega (arith, ap length same, room)) in
      scan_line-flat (suc kb.readable_size) (kb.readable_size - 1) 0 kb.readable_size start.1
        start.0 (omega arith) (omega arith) sized within
        (omega (arith, ap length (at ∙ same), room))
      ∙ ap
          (λ (ys : List ℕ).
            some
              (Option.map (λ (k : ℕ). k + 0) (line_length (take (suc (kb.readable_size - 1)) ys))))
          (at ∙ same)
      ∙ ap
          (λ (m : ℕ). some (
            Option.map (λ (k : ℕ). k + 0)
              (line_length (take m (drop kb.used_size (flat kb.blocks))))))
          {x = suc (kb.readable_size - 1)} {y = kb.readable_size} (omega arith)
      ∙ ap some (map-zero (line_length (contents kb)))

  -- On a KBuffer in order that is not empty, `getLine` returns true and the bytes up to the first
  -- end of line, with it, and drops them, if there is one. If there is none it returns false and
  -- leaves the buffer as it is.
  pub get_line-Drops :
      (kb : KBuffer)
      → Inv block kb
      → 0 < kb.readable_size
      → (line_length (contents kb) ≡ none) × (get_line block kb ≡ some (false, [], kb))
        ⊎ ((n : ℕ) × (k : KBuffer) × (line_length (contents kb) ≡ some n)
            × (get_line block kb ≡ some (true, take n (contents kb), k))
            × Drops block kb n k)
  unfolding get_line
  get_line-Drops kb v some_bytes = elim (Option-cases (line_length (contents kb))) [
    | inl e ↦ inl (e, rw (found kb v some_bytes, e) refl)
    | inr (n, e) ↦
        let (k, out, d) = read-Drops block pos kb n v in
        inr (n, k, e, rw (found kb v some_bytes, e, out) refl, d)
  ]
