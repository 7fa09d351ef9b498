-- ===== src/Utils/LockfreeQueue/Rivals.antt =====
-- Two producers on the ring of engine/utils/lockfree_queue.hpp: the value -1, which keeps the second
-- one out, is taken for an old number.
use cxxprogram.Prelude.{[], arith, false, refl, some, ℕ, ◌∷◌, ◌≡◌}
use cxxprogram.Utils.LockfreeQueue.Threads.{
  produce, System, calls_enqueue, produces, Run, here, next,
}
use cxxprogram.Utils.LockfreeQueue.Interleaving.{idle}

-- Two producers on a queue of the default size, of which one reads -1 as the old number while the
-- other has it locked, and exchanges it when it is locked again: three values have been put in and
-- none taken, and the numbers say that the queue is empty.
pub three_lost :
    {A : Type 0} (cells : ℕ → A) (u v w : A)
    → (t : System A) × Run 2 (idle 16384 cells) (u ∷ v ∷ w ∷ []) [] t
      × (t.memory.enqueue_num ≡ some 0)
      × (t.memory.dequeue_num ≡ 0)
unfolding produce
three_lost cells u v w = (
  _,
  next
      (next
        (next
          (next
            (next
              (next
                (next
                  (next
                    (next
                      (next
                        (next
                          (next
                            (next
                              (next
                                (next
                                  (next
                                    (next
                                      (next
                                        (next
                                          (next
                                            (next
                                              (next
                                                (next
                                                  (next (here)
                                                    (calls_enqueue 0 u (omega arith) refl))
                                                  (produces 0 false (omega arith)))
                                                (produces 0 false (omega arith)))
                                              (produces 0 false (omega arith)))
                                            (produces 0 false (omega arith)))
                                          (produces 0 false (omega arith)))
                                        (calls_enqueue 1 w (omega arith) refl))
                                      (produces 1 false (omega arith)))
                                    (produces 1 false (omega arith)))
                                  (produces 1 false (omega arith)))
                                (produces 0 false (omega arith)))
                              (produces 0 false (omega arith)))
                            (produces 1 false (omega arith)))
                          (calls_enqueue 0 v (omega arith) refl))
                        (produces 0 false (omega arith)))
                      (produces 0 false (omega arith)))
                    (produces 0 false (omega arith)))
                  (produces 0 false (omega arith)))
                (produces 0 false (omega arith)))
              (produces 1 false (omega arith)))
            (produces 0 false (omega arith)))
          (produces 0 false (omega arith)))
        (produces 1 false (omega arith)))
      (produces 1 false (omega arith)),
  refl,
  refl,
)
