-- ===== src/Utils/LockfreeQueue/Tests.antt =====
-- The theorems on the ring, at four cells.
use cxxprogram.Prelude.{
  List, [], arith, false, length, none, refl, some, true, ℕ, ◌++◌, ◌+◌, ◌<◌, ◌∷◌, ◌≡◌, ◌≤◌, ◌⊎◌,
}
use cxxprogram.Prelude.Bits.{pow2}
use cxxprogram.Utils.LockfreeQueue.{Queue, enqueue, dequeue}
use cxxprogram.Utils.LockfreeQueue.Threads.{
  System, Run, calls_enqueue, calls_dequeue, produces, consumes, here, next, produce, consume,
}
use cxxprogram.Utils.LockfreeQueue.Interleaving.{idle, Run-fifo}
use cxxprogram.Utils.LockfreeQueue.Bounded.{
  answers, promised_all, puts, takes, answers-promised_all,
}
use cxxprogram.Utils.LockfreeQueue.Fifo.{IsRing, contents, enqueue_lem, dequeue_lem}

-- Three of four cells are used, the last of them after the turn.
abbrev three_of_four : Queue ℕ
three_of_four = record {
  size = 4;
  is_enqueue_done = false;
  is_dequeue_done = false;
  enqueue_num = 5;
  dequeue_num = 2;
  cells = λ i. i + 10;
}

three_of_four-IsRing : IsRing three_of_four
three_of_four-IsRing = record { power = (2, refl); ordered = omega arith; bounded = omega arith }

enqueue_lem_runs :
    ((3 ≡ three_of_four.size) × (enqueue three_of_four 9 ≡ none))
    ⊎ ((3 < 4)
        × ((t : Queue ℕ) × (enqueue three_of_four 9 ≡ some (6, t))
            × IsRing t
            × (contents t ≡ 12 ∷ 13 ∷ 10 ∷ 9 ∷ [])))
enqueue_lem_runs = enqueue_lem three_of_four 9 three_of_four-IsRing

dequeue_lem_runs :
    ((contents three_of_four ≡ [])
      × (((false ≡ false) × (dequeue three_of_four ≡ none))
          ⊎ ((false ≡ true)
              × (dequeue three_of_four
                  ≡ some (0, none, record three_of_four { is_dequeue_done = true })))))
    ⊎ ((v : ℕ) × (t : Queue ℕ) × (dequeue three_of_four ≡ some (3, some v, t))
        × IsRing t
        × (12 ∷ 13 ∷ 10 ∷ [] ≡ v ∷ contents t))
dequeue_lem_runs = dequeue_lem three_of_four three_of_four-IsRing

-- A full ring takes nothing, and gives what was first.
answers-promised_all_example :
    answers three_of_four (puts 7 ∷ puts 8 ∷ takes ∷ puts 9 ∷ [])
    ≡ promised_all
        (record { size = 4; is_done = false; outs = 2; waiting = 12 ∷ 13 ∷ 10 ∷ [] })
        (puts 7 ∷ puts 8 ∷ takes ∷ puts 9 ∷ [])
answers-promised_all_example =
    answers-promised_all three_of_four (puts 7 ∷ puts 8 ∷ takes ∷ puts 9 ∷ []) three_of_four-IsRing

-- The producer puts 7 in, and the consumer, which began to look before that, takes it.
abbrev one_through : (t : System ℕ) × Run 1 (idle (pow2 2) (λ i. i)) (7 ∷ []) (7 ∷ []) t
unfolding produce consume
one_through = (
  _,
  next
      (next
        (next
          (next
            (next
              (next
                (next
                  (next
                    (next
                      (next
                        (next
                          (next
                            (next
                              (next (next here (calls_enqueue 0 7 (omega arith) refl))
                                (produces 0 false (omega arith)))
                              (produces 0 false (omega arith)))
                            (produces 0 false (omega arith)))
                          (calls_dequeue 0 refl))
                        (consumes 0 false))
                      (produces 0 false (omega arith)))
                    (produces 0 false (omega arith)))
                  (produces 0 false (omega arith)))
                (produces 0 false (omega arith)))
              (consumes 0 false))
            (consumes 0 false))
          (consumes 0 false))
        (consumes 0 false))
      (consumes 0 false),
)

Run-fifo_example :
    (waiting : List ℕ) × (7 ∷ [] ≡ (7 ∷ []) ++ waiting)
    × (length waiting ≤ one_through.0.memory.size)
Run-fifo_example = Run-fifo 2 (λ i. i) one_through.1
