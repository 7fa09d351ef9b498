-- ===== src/Unittest/MessageQueue/Tests.antt =====
-- Threads at a message queue.
use cxxprogram.Prelude.{List, [], false, refl, true, ℕ, ◌++◌, ◌∷◌, ◌≡◌, ◌⊎◌}
use cxxprogram.Unittest.MessageQueue.{
  turn, System, is_asleep, calls_push, calls_pop, moves, notifies, disables_notify, Run, here, next,
  begin,
}
use cxxprogram.Unittest.MessageQueue.Order.{Run-order}
use cxxprogram.Unittest.MessageQueue.Wakeups.{is_awake, Run-awake}

-- Thread 1 falls asleep in `Pop`; thread 0 puts in 7.
abbrev asleep_then_pushed : (ins outs : List ℕ) × (t : System ℕ) × Run (begin ℕ) ins outs t
unfolding turn
asleep_then_pushed = (
  _,
  _,
  _,
  next
      (next
        (next
          (next
            (next
              (next (next (next (next here (calls_pop 1 [] refl)) (moves 1)) (moves 1)) (moves 1))
              (calls_push 0 7 refl))
            (moves 0))
          (moves 0))
        (moves 0))
      (moves 0),
)

-- Thread 0 notifies it, and it takes the message.
abbrev notified : (ins outs : List ℕ) × (t : System ℕ) × Run (begin ℕ) ins outs t
unfolding turn
notified = (
  _,
  _,
  _,
  next
      (next
        (next
          (next
            (next (next (next asleep_then_pushed.3 (moves 0)) (notifies 0 1 refl refl)) (moves 1))
            (moves 1))
          (moves 1))
        (moves 1))
      (moves 1),
)

notified_taken : notified.1 ≡ 7 ∷ []
unfolding turn
notified_taken = refl

-- After `disable_notify` the message waits while thread 1 sleeps, and no thread is in another call.
abbrev disabled : (ins outs : List ℕ) × (t : System ℕ) × Run (begin ℕ) ins outs t
unfolding turn
disabled = (_, _, _, next (next asleep_then_pushed.3 disables_notify) (moves 0))

disabled_sleeps :
    (disabled.2.shared.queue ≡ 7 ∷ [])
    × (is_asleep (disabled.2.threads 1) ≡ true)
    × (is_awake (disabled.2.threads 0) ≡ false)
unfolding turn
disabled_sleeps = (refl, refl, refl)

Run-order_example :
    (rest : List ℕ) × (notified.0 ≡ notified.1 ++ rest)
    × ((notified.2.shared.locked ≡ true) ⊎ (rest ≡ notified.2.shared.queue))
Run-order_example = Run-order notified.3

Run-awake_example :
    (asleep_then_pushed.2.shared.queue ≡ [])
    ⊎ ((j : ℕ) × (is_awake (asleep_then_pushed.2.threads j) ≡ true))
unfolding turn
Run-awake_example = Run-awake 1 asleep_then_pushed.3 refl refl
