-- ===== src/Net/ContextPool/Tests.antt =====
-- The turn of the contexts, at a pool of three.
use cxxprogram.Prelude.{List, [], arith, get_elem?, refl, some, ℕ, ◌+◌, ◌<◌, ◌∷◌, ◌≡◌, ◌≢◌}
use cxxprogram.Net.ContextPool.{ContextPool}
use cxxprogram.Net.ContextPool.RoundRobin.{next_many, next_many-fair}

abbrev three : ContextPool
three = record { contexts = 0 ∷ 1 ∷ 2 ∷ []; thread_count = 3; thread_context_index = 0 }

next_many-fair_example :
    (cs : List ℕ) × (q : ContextPool) × (next_many 7 three ≡ some (cs, q))
    × ((a d : ℕ) → 0 < d → d < 3 → a + d < 7 → get_elem? cs (a + d) ≢ get_elem? cs a)
    × ((a : ℕ) → a + 3 < 7 → get_elem? cs (a + 3) ≡ get_elem? cs a)
next_many-fair_example =
    next_many-fair 7 three
      (record { all = refl; some_context = omega arith; in_range = omega arith }) (omega arith)
