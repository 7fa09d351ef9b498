-- ===== src/Utils/LockfreeQueue/Size.antt =====
-- `set_size` of engine/utils/lockfree_queue.hpp.
use cxxprogram.Prelude.{
  Bool, Bool-cases, ap, arith, false, if◌then◌else◌, inl, inr, leb, ltb, some, suc, tests, zero, ℕ,
  ◌*◌, ◌/◌, ◌<◌, ◌∙◌, ◌≡◌, ◌≤◌,
}
use cxxprogram.Prelude.Bits.{pow2}
use cxxprogram.Utils.LockfreeQueue.{halve, double_up, set_size}

again_lem :
    (fuel size m : ℕ)
    → m < size
    → double_up (suc (suc fuel)) size m ≡ double_up (suc fuel) size (m * 2)
unfolding double_up
again_lem fuel size m l = ground arith

stop_lem : (fuel size m : ℕ) → ltb m size ≡ false → double_up (suc fuel) size m ≡ some m
unfolding double_up
stop_lem fuel size m l = ground arith

double_up_lem :
    (fuel size m : ℕ)
    → 0 < m
    → m < size
    → size ≤ m * pow2 fuel
    → (k : ℕ) × (double_up (suc fuel) size m ≡ some (m * pow2 k * 2))
      × (m * pow2 k < size)
      × (size ≤ m * pow2 k * 2)
double_up_lem zero size m p l h = absurd (omega arith)
double_up_lem (suc fuel) size m p l h = elim (Bool-cases (ltb (m * 2) size)) [
  | inl more ↦
      let (k, e, a, b) =
        double_up_lem fuel size (m * 2) (omega arith) (omega tests) (omega arith) in
      let again : double_up (suc (suc fuel)) size m ≡ double_up (suc fuel) size (m * 2) =
        again_lem fuel size m l in
      let same : m * 2 * pow2 k ≡ m * pow2 (suc k) = omega arith in
      (suc k, again ∙ e ∙ ap (λ n. some (n * 2)) same, omega (arith, same), omega (arith, same))
  | inr done ↦
      let stop : double_up (suc (suc fuel)) size m ≡ some (m * 2) =
        again_lem fuel size m l ∙ stop_lem fuel size (m * 2) done in
      (0, stop ∙ ap some (omega arith), omega arith, ground arith)
]

large_lem :
    (size : ℕ)
    → 16384 < size
    → (m : ℕ) → double_up 17 size 16384 ≡ some (m * 2)
    → set_size size ≡ some m
unfolding set_size
large_lem size l m e =
    let big : leb size 16384 ≡ false = ground arith in
    let half : m * 2 / 2 ≡ m = omega arith in
    ap (λ (b : Bool). if b then some 16384 else halve (double_up 17 size 16384)) big
    ∙ ap halve e
    ∙ ap some half

-- For a size over the default 16384 and up to 2^30 the loop ends, and the ring gets the largest
-- number of cells below that size that is 16384 times a power of two.
pub set_size_lem :
    (size : ℕ)
    → 16384 < size
    → size ≤ 1073741824
    → (k : ℕ) × (set_size size ≡ some (16384 * pow2 k))
      × (16384 * pow2 k < size)
      × (size ≤ 2 * (16384 * pow2 k))
set_size_lem size l h =
    let (k, e, a, b) = double_up_lem 16 size 16384 (omega arith) l (omega arith) in
    (k, large_lem size l (16384 * pow2 k) e, a, omega (arith, b))
