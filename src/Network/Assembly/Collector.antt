-- ===== src/Network/Assembly/Collector.antt =====
-- What the assembler promises: it collects the indices of one packet, and reports the packet each
-- time that they are complete.
use morsh.Common.{
  ℕ, zero, suc, ◌+◌, ◌≤◌, ◌<◌, ◌≡◌, refl, List, [], ◌∷◌, Bool, true, false, ◌&&◌, ◌==◌,
  if◌then◌else◌, arith,
}

abbrev pub IndexSet : Type 0
IndexSet = ℕ → Bool

abbrev pub no_index : IndexSet
no_index i = false

abbrev pub with_index : ℕ → IndexSet → IndexSet
with_index i s j = if i == j then true else s j

unfoldable pub all_below : ℕ → IndexSet → Bool
all_below zero s = true
all_below (suc n) s = s 0 && all_below n (λ i. s (suc i))

-- For each arrival, whether it completes the packet. A complete packet starts the next collection.
unfoldable pub collect : ℕ → IndexSet → List ℕ → List Bool
unfolding all_below
collect n s [] = []
collect n s (i ∷ is) =
    let full = all_below n (with_index i s) in
    full ∷ collect n (if full then no_index else with_index i s) is

unfoldable pub count : ℕ → IndexSet → ℕ
count zero s = 0
count (suc n) s = (if s 0 then 1 else 0) + count n (λ i. s (suc i))

count-le : (n : ℕ) (s : IndexSet) → count n s ≤ n
unfolding count
count-le zero s = omega arith
count-le (suc n) s = ground (arith, count-le n (λ i. s (suc i)))

pub all_below-count : (n : ℕ) (s : IndexSet) → all_below n s ≡ (count n s == n)
unfolding count all_below
all_below-count zero s = refl
all_below-count (suc n) s =
    ground (arith, all_below-count n (λ i. s (suc i)), count-le n (λ i. s (suc i)))

pub all_below-true : (n : ℕ) (s : IndexSet) → all_below n s ≡ true → (i : ℕ) → i < n → s i ≡ true
unfolding all_below
all_below-true zero s e i h = absurd (omega arith)
all_below-true (suc n) s e zero h = ground arith
all_below-true (suc n) s e (suc i) h =
    all_below-true n (λ j. s (suc j)) (ground arith) i (omega arith)

pub count_ext : (n : ℕ) (s t : IndexSet) → ((i : ℕ) → i < n → s i ≡ t i) → count n s ≡ count n t
unfolding count
count_ext zero s t h = refl
count_ext (suc n) s t h =
    let head : s 0 ≡ t 0 = h 0 (omega arith) in
    let tail : _ = count_ext n (λ i. s (suc i)) (λ i. t (suc i)) (λ i k. h (suc i) (omega arith)) in
    ground (arith, head, tail)
