-- ===== src/Utils/Singleton/Tests.antt =====
-- Two threads at a singleton.
use cxxprogram.Prelude.{[], length, refl, ℕ, ◌∷◌, ◌≡◌, ◌≤◌}
use cxxprogram.Utils.Singleton.{turn, System, Reach, here, next, calls, goes_on, begin}
use cxxprogram.Utils.Singleton.Making.{Gets, Reach-one}

-- Thread 1 waits for the construction that thread 0 has begun, and both return.
abbrev two_calls : (t : System ℕ) × Reach (begin ℕ) t
unfolding turn
two_calls = (
  _,
  next
      (next
        (next
          (next
            (next
              (next
                (next
                  (next
                    (next (next (next (next here (calls 0 4 refl)) (goes_on 0)) (calls 1 5 refl))
                      (goes_on 1))
                    (goes_on 0))
                  (goes_on 1))
                (goes_on 0))
              (goes_on 0))
            (goes_on 0))
          (goes_on 0))
        (goes_on 1))
      (goes_on 1),
)

two_calls_made : two_calls.0.static.objects ≡ 4 ∷ []
unfolding turn
two_calls_made = refl

Reach-one_example :
    (length two_calls.0.static.objects ≤ 1) × Gets two_calls.0.static (two_calls.0.callers 1)
Reach-one_example = Reach-one 1 two_calls.1
