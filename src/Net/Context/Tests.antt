-- ===== src/Net/Context/Tests.antt =====
-- A context that is stopped as soon as it is made.
use cxxprogram.Prelude.{false, inl, refl, ◌≡◌, ◌≤◌, ◌⊎◌}
use cxxprogram.Net.Context.{
  ended, Caller, back, stops, Context, new, loop_turn, stop_turn, Turns, calls_stop, loops, goes_on,
}
use cxxprogram.Net.Context.Stopping.{IsContext, Turns-stop}

-- The thread makes its guard, and the caller has found it joinable.
abbrev begun : (d : Context) × Turns new 2 d stops
unfolding new loop_turn stop_turn
begun = (_, goes_on (loops calls_stop refl) refl)

new-IsContext : IsContext new
unfolding new
new-IsContext = inl refl

Turns-stop_example :
    (2 ≤ 6)
    × (((stops ≡ back) × (begun.0.joinable ≡ false) × (begun.0.loop ≡ ended))
        ⊎ ((e : Context) × (u : Caller) × Turns new 3 e u))
Turns-stop_example = Turns-stop new-IsContext begun.1
