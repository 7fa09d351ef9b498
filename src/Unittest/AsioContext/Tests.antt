-- ===== src/Unittest/AsioContext/Tests.antt =====
-- One handler of two children begins, and its first post is polled.
use cxxprogram.Prelude.{[], arith, refl, ◌*◌, ◌<◌, ◌∷◌, ◌≡◌, ◌⊎◌}
use cxxprogram.Unittest.AsioContext.{Program, begin, Step, begins, posts, polls, Steps, here, next}
use cxxprogram.Unittest.AsioContext.Polling.{sum, Steps-num}

abbrev three_steps : (t : Program) × Steps (begin (1 ∷ 1 ∷ [])) 3 t
unfolding begin
three_steps = (
  _,
  next (next (next here (begins [] 0 _ refl)) (posts [] 0 10239 _ refl))
      (polls 0 refl (omega arith)),
)

Steps-num_example :
    ((3 ≡ 20481 * sum (1 ∷ 1 ∷ [])) × (three_steps.0.num ≡ 10240 * sum (1 ∷ 1 ∷ [])))
    ⊎ ((3 < 20481 * sum (1 ∷ 1 ∷ [])) × ((u : Program) × Step three_steps.0 u))
Steps-num_example = Steps-num (1 ∷ 1 ∷ []) (omega arith) three_steps.1
