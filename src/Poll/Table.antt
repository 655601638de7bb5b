-- ===== src/Poll/Table.antt =====
-- The operations of a PollSelect on its table of descriptors.
use kknet.Prelude.{
  ℕ, suc, ◌≤◌, ◌<◌, ◌≡◌, refl, Option, none, some, [], ◌∷◌, ◌==◌, if◌then◌else◌, arith,
}
use kknet.Poll.Select.{FdEvent, Events, find, assign, erase}

pub find-assign :
    (j k : ℕ) (p : Option FdEvent) (m : Events)
    → find j (assign k p m) ≡ (if k == j then some p else find j m)
unfolding find assign
find-assign j k p [] = ground arith
find-assign j k p ((i, q) ∷ m) = ground (arith, find-assign j k p m)

-- The keys rise, from `low` on.
abbrev pub Ascending : ℕ → Events → Type 0
Ascending low [] = Unit {0}
Ascending low ((k, p) ∷ m) = (low ≤ k) × Ascending (suc k) m

-- The keys are below `n`.
abbrev pub Below : ℕ → Events → Type 0
Below n [] = Unit {0}
Below n ((k, p) ∷ m) = (k < n) × Below n m

pub find_low : (j low : ℕ) (m : Events) → Ascending low m → j < low → find j m ≡ none
unfolding find
find_low j low [] a h = refl
find_low j low ((k, p) ∷ m) a h = ground (arith, find_low j (suc k) m a.1)

pub find-erase :
    (j k low : ℕ) (m : Events)
    → Ascending low m
    → find j (erase k m) ≡ (if k == j then none else find j m)
unfolding find erase
find-erase j k low [] a = ground arith
find-erase j k low ((i, q) ∷ m) a =
    ground (arith, find-erase j k (suc i) m a.1, find_low j (suc i) m a.1)

Ascending-weaken : {low low' : ℕ} (m : Events) → low' ≤ low → Ascending low m → Ascending low' m
Ascending-weaken [] h a = tt
Ascending-weaken ((k, p) ∷ m) h a = (omega arith, a.1)

pub assign-Ascending :
    (k low : ℕ) (p : Option FdEvent) (m : Events)
    → low ≤ k
    → Ascending low m
    → Ascending low (assign k p m)
unfolding assign
assign-Ascending k low p [] h a = (h, tt)
assign-Ascending k low p ((i, q) ∷ m) h a = ground (arith, assign-Ascending k (suc i) p m)

pub erase-Ascending : (k low : ℕ) (m : Events) → Ascending low m → Ascending low (erase k m)
unfolding erase
erase-Ascending k low [] a = tt
erase-Ascending k low ((i, q) ∷ m) a =
    ground (arith, erase-Ascending k (suc i) m a.1, Ascending-weaken {low = suc i} {low' = low} m)

pub assign-Below :
    (k n : ℕ) (p : Option FdEvent) (m : Events) → k < n → Below n m → Below n (assign k p m)
unfolding assign
assign-Below k n p [] h b = (h, tt)
assign-Below k n p ((i, q) ∷ m) h b = ground (arith, assign-Below k n p m)

pub Below-mono : {n n' : ℕ} (m : Events) → n ≤ n' → Below n m → Below n' m
Below-mono [] h b = tt
Below-mono ((i, q) ∷ m) h b = (omega arith, Below-mono m h b.1)

Below-Ascending : (n low : ℕ) (m : Events) → Ascending low m → Below (suc n) m → n < low → Below n m
Below-Ascending n low [] a b h = tt
Below-Ascending n low ((i, q) ∷ m) a b h = absurd (omega arith)

pub erase-Below : (k n : ℕ) (m : Events) → Below n m → Below n (erase k m)
unfolding erase
erase-Below k n [] b = tt
erase-Below k n ((i, q) ∷ m) b = ground (arith, erase-Below k n m b.1)

-- Without its greatest key the table is below that key.
pub erase_greatest-Below :
    (n low : ℕ) (m : Events) → Ascending low m → Below (suc n) m → Below n (erase n m)
unfolding erase
erase_greatest-Below n low [] a b = tt
erase_greatest-Below n low ((i, q) ∷ m) a b =
    ground (arith, erase_greatest-Below n (suc i) m a.1 b.1, Below-Ascending n (suc i) m a.1 b.1)
