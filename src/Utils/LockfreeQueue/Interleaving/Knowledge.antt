-- ===== src/Utils/LockfreeQueue/Interleaving/Knowledge.antt =====
-- What the threads at the ring of engine/utils/lockfree_queue.hpp know where they are, and what keeps it.
use Prim.Native.Nat.{bit_and}
use cxxprogram.Prelude.{
  List, Option, [], ap, append-nil, arith, none, some, subst, sym, ℕ, ◌++◌, ◌+◌, ◌-◌, ◌<◌, ◌∙◌, ◌≡◌,
  ◌≤◌,
}
use cxxprogram.Prelude.Bits.{pow2}
use cxxprogram.Utils.LockfreeQueue.Fifo.{values, values_ext, slots_apart, write_cell-other}
use cxxprogram.Utils.LockfreeQueue.Threads.{
  Memory, Producer, away, tests, tests_room, reads, checks, swaps, writes, publishes, Consumer,
  rests, loads, compares, bounds, copies, picks, claims, Act, quiet, mask, write_cell, put_in,
  taken_out,
}

-- What the producer knows, when `e` is the number of the next value.
abbrev pub At : {A : Type 0} → Option ℕ → ℕ → ℕ → (ℕ → A) → Producer A → ℕ → Type 0
At enq deq size cells away e = enq ≡ some e
At enq deq size cells (tests v) e = enq ≡ some e
At enq deq size cells (tests_room v o) e = (enq ≡ some e) × (o ≡ some e)
At enq deq size cells (reads v) e = (enq ≡ some e) × (e < deq + size)
At enq deq size cells (checks v o) e = (enq ≡ some e) × (o ≡ some e) × (e < deq + size)
At enq deq size cells (swaps v o) e = (enq ≡ some e) × (o ≡ some e) × (e < deq + size)
At enq deq size cells (writes v o) e = (enq ≡ none) × (o ≡ some e) × (e < deq + size)
At enq deq size cells (publishes v o) e =
    (enq ≡ none) × (o ≡ some e) × (e < deq + size) × (cells (bit_and e (size - 1)) ≡ v)

-- What a consumer knows.
abbrev pub Fits : {A : Type 0} → ℕ → (ℕ → A) → ℕ → ℕ → Consumer A → Type 0
Fits deq cells mask e rests = Unit {0}
Fits deq cells mask e loads = Unit {0}
Fits deq cells mask e (compares old) = old ≤ deq
Fits deq cells mask e (bounds old d) = (old ≤ d) × (d ≤ deq)
Fits deq cells mask e (copies old) = (old ≤ deq) × (old < e)
Fits deq cells mask e (picks old d) = (old ≤ d) × (d ≤ deq) × (old < e)
Fits deq cells mask e (claims old v) =
    (old ≤ deq) × (old < e) × (deq ≡ old → v ≡ cells (bit_and old mask))

-- The memory and the producer, after the values `ins` have been put in and `outs` taken out: what is
-- left stands in the ring.
pub record Core {A : Type 0} (m : Memory A) (p : Producer A) (e : ℕ) (ins outs : List A)
    : Type 0 where
  pub power : (k : ℕ) × (m.size ≡ pow2 k)
  pub at : At m.enqueue_num m.dequeue_num m.size m.cells p e
  pub ordered : m.dequeue_num ≤ e
  pub bounded : e ≤ m.dequeue_num + m.size
  pub order : ins ≡ outs ++ values m.cells (mask m) m.dequeue_num (e - m.dequeue_num)

pub record Produced {A : Type 0} (m : Memory A) (e : ℕ) (ins outs : List A)
    (r : Memory A × Producer A × Act A) : Type 0 where
  pub front : ℕ
  pub core : Core r.0 r.1 front (ins ++ put_in r.2) (outs ++ taken_out r.2)
  pub fits :
      (c : Consumer A)
      → Fits m.dequeue_num m.cells (mask m) e c
      → Fits r.0.dequeue_num r.0.cells (mask r.0) front c

pub Core-nil :
    {A : Type 0} {m : Memory A} {p : Producer A} {e : ℕ} {ins outs : List A}
    → Core m p e ins outs
    → Core m p e (ins ++ []) (outs ++ [])
Core-nil {m = m} {e = e} {ins = ins} {outs = outs} c = record {
  power = c.power;
  at = c.at;
  ordered = c.ordered;
  bounded = c.bounded;
  order =
      append-nil ins
      ∙ c.order
      ∙ ap (λ o. o ++ values m.cells (mask m) m.dequeue_num (e - m.dequeue_num))
          (sym (append-nil outs));
}

-- A step that only moves the producer on.
pub moved :
    {A : Type 0} {m : Memory A} {p : Producer A} {e : ℕ} {ins outs : List A} (q : Producer A)
    → Core m p e ins outs
    → At m.enqueue_num m.dequeue_num m.size m.cells q e
    → Produced m e ins outs (m, q, quiet)
moved {e = e} q c a = record {
  front = e;
  core = Core-nil (record {
    power = c.power;
    at = a;
    ordered = c.ordered;
    bounded = c.bounded;
    order = c.order;
  });
  fits = λ c f. f;
}

-- A cell that is free is written: what waits is as before, and so is what a consumer reads.
Fits-write :
    {A : Type 0} (k deq e : ℕ) (cells : ℕ → A) (v : A) (c : Consumer A)
    → e < deq + pow2 k
    → Fits deq cells (pow2 k - 1) e c
    → Fits deq (write_cell cells (bit_and e (pow2 k - 1)) v) (pow2 k - 1) e c
Fits-write k deq e cells v rests h f = tt
Fits-write k deq e cells v loads h f = tt
Fits-write k deq e cells v (compares old) h f = f
Fits-write k deq e cells v (bounds old d) h f = f
Fits-write k deq e cells v (copies old) h f = f
Fits-write k deq e cells v (picks old d) h f = f
Fits-write k deq e cells v (claims old w) h (a, b, f) = (
  a,
  b,
  λ same.
      f same
      ∙ sym (
          write_cell-other cells (bit_and e (pow2 k - 1)) (bit_and old (pow2 k - 1)) v
            (slots_apart k old e b (omega arith))),
)

values-write_free :
    {A : Type 0} (k deq e : ℕ) (cells : ℕ → A) (v : A)
    → deq ≤ e
    → e < deq + pow2 k
    → values (write_cell cells (bit_and e (pow2 k - 1)) v) (pow2 k - 1) deq (e - deq)
      ≡ values cells (pow2 k - 1) deq (e - deq)
values-write_free k deq e cells v o h =
    values_ext cells (write_cell cells (bit_and e (pow2 k - 1)) v) (pow2 k - 1) deq (e - deq)
      (λ j a b.
        write_cell-other cells (bit_and e (pow2 k - 1)) (bit_and j (pow2 k - 1)) v
          (slots_apart k j e (omega arith) (omega arith)))

-- One more number, and no consumer knows less.
pub Fits-suc :
    {A : Type 0} (deq mask e : ℕ) (cells : ℕ → A) (c : Consumer A)
    → Fits deq cells mask e c
    → Fits deq cells mask (e + 1) c
Fits-suc deq mask e cells rests f = tt
Fits-suc deq mask e cells loads f = tt
Fits-suc deq mask e cells (compares old) f = f
Fits-suc deq mask e cells (bounds old d) f = f
Fits-suc deq mask e cells (copies old) f = omega (arith, f.0, f.1)
Fits-suc deq mask e cells (picks old d) f = omega (arith, f.0, f.1, f.2)
Fits-suc deq mask e cells (claims old v) f = (f.0, omega (arith, f.1), f.2)

-- The same, of a ring whose size is a power of two.
pub Fits-write_ring :
    {A : Type 0} (size deq e : ℕ) (cells : ℕ → A) (v : A) (c : Consumer A)
    → (k : ℕ) × (size ≡ pow2 k)
    → e < deq + size
    → Fits deq cells (size - 1) e c
    → Fits deq (write_cell cells (bit_and e (size - 1)) v) (size - 1) e c
Fits-write_ring size deq e cells v c (k, same) =
    subst
      (λ z.
        e < deq + z
        → Fits deq cells (z - 1) e c
        → Fits deq (write_cell cells (bit_and e (z - 1)) v) (z - 1) e c)
      (sym same) (Fits-write k deq e cells v c)

pub values-write_ring :
    {A : Type 0} (size deq e : ℕ) (cells : ℕ → A) (v : A)
    → (k : ℕ) × (size ≡ pow2 k)
    → deq ≤ e
    → e < deq + size
    → values (write_cell cells (bit_and e (size - 1)) v) (size - 1) deq (e - deq)
      ≡ values cells (size - 1) deq (e - deq)
values-write_ring size deq e cells v (k, same) o =
    subst
      (λ z.
        e < deq + z
        → values (write_cell cells (bit_and e (z - 1)) v) (z - 1) deq (e - deq)
          ≡ values cells (z - 1) deq (e - deq))
      (sym same) (values-write_free k deq e cells v o)
