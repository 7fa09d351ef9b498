-- ===== src/Utils/LockfreeQueue.antt =====
-- engine/utils/lockfree_queue.hpp: the ring of `Queue<T>` with one producer and one consumer, of which
-- each runs its operation as one step; Threads has the operations one access after another. The
-- counters do not wrap here; `-1` in `m_enqueue_num`, which keeps a second producer out, is not seen
-- between two operations. An operation that spins gives `none`.
pub mod Size
pub mod Fifo
pub mod Bounded
pub mod Threads
pub mod Interleaving
pub mod Rivals
mod Tests
use Prim.Native.Nat.{bit_and}
use cxxprogram.Prelude.{
  Bool, Option, false, if◌then◌else◌, leb, ltb, none, some, suc, true, zero, ℕ, ◌*◌, ◌+◌, ◌-◌, ◌/◌,
  ◌==◌,
}

-- The doubling loop of `set_size`, on at most so many rounds.
unfoldable pub double_up : ℕ → ℕ → ℕ → Option ℕ
double_up zero size m = none
double_up (suc fuel) size m =
    let rest = double_up fuel size (m * 2) in if ltb m size then rest else some m

-- The shift back after the loop.
abbrev pub halve : Option ℕ → Option ℕ
halve none = none
halve (some m) = some (m / 2)

unfoldable pub set_size : ℕ → Option ℕ
set_size size = if leb size 16384 then some 16384 else halve (double_up 17 size 16384)

pub record Queue (A : Type 0) : Type 0 where
  pub size : ℕ
  pub is_enqueue_done : Bool
  pub is_dequeue_done : Bool
  pub enqueue_num : ℕ
  pub dequeue_num : ℕ
  -- `m_data`.
  pub cells : ℕ → A

abbrev pub slot : {A : Type 0} → Queue A → ℕ → ℕ
slot q n = bit_and n (q.size - 1)

unfoldable pub enqueue : {A : Type 0} → Queue A → A → Option (ℕ × Queue A)
enqueue q value =
    if leb q.size (q.enqueue_num - q.dequeue_num)
    then none
    else some (
      q.enqueue_num + 1,
      record q {
        cells = λ i. if i == slot q q.enqueue_num then value else q.cells i;
        enqueue_num = q.enqueue_num + 1;
      },
    )

-- The number, and the value unless the queue has ended.
unfoldable pub dequeue : {A : Type 0} → Queue A → Option (ℕ × Option A × Queue A)
dequeue q =
    if leb q.enqueue_num q.dequeue_num
    then (if q.is_enqueue_done then some (0, none, record q { is_dequeue_done = true }) else none)
    else some (
      q.dequeue_num + 1,
      some (q.cells (slot q q.dequeue_num)),
      record q { dequeue_num = q.dequeue_num + 1 },
    )

unfoldable pub clear : {A : Type 0} → Queue A → Queue A
clear q = record q {
  enqueue_num = 0;
  dequeue_num = 0;
  is_enqueue_done = false;
  is_dequeue_done = false;
}
