-- ===== src/Utils/Snowflake/Tests.antt =====
-- The theorems on the generator, with a clock that stands still after its first step.
use Prim.Native.Nat.{min}
use mathlib.Core.Equiv.{IsContr, Fiber}
use cxxprogram.Utils.Snowflake.Layout.{identifier, identifier-IsEquiv}
use cxxprogram.Prelude.{List, [], arith, length, refl, some, ℕ, ◌+◌, ◌∷◌, ◌≡◌}
use cxxprogram.Prelude.Int.{negsuc, pos}
use cxxprogram.Utils.Snowflake.{Snowflake, twepoch, next, compose}
use cxxprogram.Utils.Snowflake.Layout.{IsConfigured}
use cxxprogram.Utils.Snowflake.Many.{next_many_lem}
use cxxprogram.Utils.Snowflake.Increasing.{
  IsSteady, IsReady, next-total, next_many, Increasing, next_many-Increasing,
}

abbrev clock : ℕ → ℕ
clock i = twepoch + min i 1

clock-IsSteady : IsSteady clock
clock-IsSteady = record { later = λ i. omega arith; times = λ i. omega arith }

abbrev new : Snowflake
new = record {
  last_timestamp = negsuc 0;
  workerid = 3;
  datacenterid = 1;
  sequence = 0;
  readings = 0;
}

new-IsConfigured : IsConfigured new
new-IsConfigured = record { worker = omega arith; datacenter = omega arith; counted = omega arith }

new-IsReady : IsReady clock new
new-IsReady = record { configured = new-IsConfigured; past = tt }

abbrev after_first : Snowflake
after_first = record new { last_timestamp = pos twepoch; readings = 1 }

abbrev after_third : Snowflake
after_third = record new { last_timestamp = pos (twepoch + 1); sequence = 1; readings = 3 }

next_many_increases : Increasing clock 143360 (4337664 ∷ 4337665 ∷ [])
unfolding next compose next_many
next_many_increases =
    next_many-Increasing clock 5 2 new {s' = after_first} {z = after_third} clock-IsSteady
      new-IsReady refl refl

next_ends : (r : ℕ × Snowflake) × (next clock 2 new ≡ some r)
next_ends = next-total clock 0 new (omega arith)

identifier-IsEquiv_example : IsContr (Fiber identifier (4337664, refl))
identifier-IsEquiv_example = identifier-IsEquiv (4337664, refl)

-- A clock that goes on a hundred times.
abbrev running : ℕ → ℕ
running i = twepoch + min i 100

running-IsSteady : IsSteady running
running-IsSteady = record { later = λ i. omega arith; times = λ i. omega arith }

new-running-IsReady : IsReady running new
new-running-IsReady = record { configured = new-IsConfigured; past = tt }

next_many_lem_example :
    (id : ℕ) × (ids : List ℕ) × (z : Snowflake) × (next_many running 2 3 new ≡ some (id ∷ ids, z))
    × (length ids ≡ 2)
    × Increasing running id ids
next_many_lem_example =
    next_many_lem running 0 2 new running-IsSteady new-running-IsReady (λ i h. omega arith)
