-- ===== src/Utils/LockfreeQueue/Interleaving.antt =====
-- One producer and any consumers on the ring of engine/utils/lockfree_queue.hpp, step by step.
pub mod Knowledge
pub mod Producing
pub mod Consuming
use cxxprogram.Prelude.{
  Bool, Bool-cases, List, [], arith, false, if◌then◌else◌, inl, inr, length, refl, some, subst, sym,
  ℕ, ◌++◌, ◌-◌, ◌==◌, ◌≡◌, ◌≤◌,
}
use cxxprogram.Prelude.Bits.{pow2}
use cxxprogram.Utils.LockfreeQueue.Fifo.{values, length-values}
use cxxprogram.Utils.LockfreeQueue.Threads.{
  away, tests, rests, loads, Act, mask, produce, consume, System, update, with_producer, Step,
  calls_enqueue, calls_dequeue, ends_enqueue, produces, consumes, put_in, taken_out, Run, here,
  next,
}
use cxxprogram.Utils.LockfreeQueue.Interleaving.Knowledge.{At, Fits, Core-nil, Core}
use cxxprogram.Utils.LockfreeQueue.Interleaving.Producing.{produce-Produced}
use cxxprogram.Utils.LockfreeQueue.Interleaving.Consuming.{consume-Consumed}

-- The system with one producer, thread 0.
pub record IsRing {A : Type 0} (s : System A) (ins outs : List A) : Type 0 where
  pub front : ℕ
  pub core : Core s.memory (s.producers 0) front ins outs
  pub fits :
      (j : ℕ) → Fits s.memory.dequeue_num s.memory.cells (mask s.memory) front (s.consumers j)

-- A fact about every thread, after one of them has moved.
update_all :
    {B : Type 0} (F : B → Type 0) (f : ℕ → B) (i : ℕ) (b : B)
    → F b
    → ((j : ℕ) → F (f j))
    → (j : ℕ) → F (update f i b j)
update_all F f i b own others j = elim (Bool-cases (i == j)) [
  | inl e ↦ subst (λ (t : Bool). F (if t then b else f j)) (sym e) own
  | inr e ↦ subst (λ (t : Bool). F (if t then b else f j)) (sym e) (others j)
]

produces-IsRing :
    {A : Type 0} (s : System A) (spurious : Bool) (i : ℕ) {ins outs : List A}
    → i ≡ 0
    → IsRing s ins outs
    → IsRing
        (with_producer s i (produce spurious s.memory (s.producers i)))
        (ins ++ put_in (produce spurious s.memory (s.producers i)).2)
        (outs ++ taken_out (produce spurious s.memory (s.producers i)).2)
produces-IsRing s spurious i {ins = ins} {outs = outs} z r =
    let p = produce-Produced spurious s.memory (s.producers 0) r.front ins outs r.core in
    subst
      (λ k.
        IsRing (with_producer s k (produce spurious s.memory (s.producers k)))
          (ins ++ put_in (produce spurious s.memory (s.producers k)).2)
          (outs ++ taken_out (produce spurious s.memory (s.producers k)).2))
      (sym z)
      (record { front = p.front; core = p.core; fits = λ j. p.fits (s.consumers j) (r.fits j) })

quiet-IsRing :
    {A : Type 0} {s : System A} {ins outs : List A}
    → IsRing s ins outs
    → IsRing s (ins ++ []) (outs ++ [])
quiet-IsRing r = record { front = r.front; core = Core-nil r.core; fits = r.fits }

begun-IsRing :
    {A : Type 0} (s : System A) (i : ℕ) (v : A) {ins outs : List A}
    → i ≡ 0
    → s.producers i ≡ away
    → IsRing s ins outs
    → IsRing (record s { producers = update s.producers i (tests v) }) ins outs
begun-IsRing s i v {ins = ins} {outs = outs} z idle r =
    subst
      (λ k.
        s.producers k ≡ away
        → IsRing (record s { producers = update s.producers k (tests v) }) ins outs)
      (sym z)
      (λ calm. record {
        front = r.front;
        core = record {
          power = r.core.power;
          at =
              subst
                (λ p.
                  At s.memory.enqueue_num s.memory.dequeue_num s.memory.size s.memory.cells p
                    r.front)
                calm r.core.at;
          ordered = r.core.ordered;
          bounded = r.core.bounded;
          order = r.core.order;
        };
        fits = r.fits;
      })
      idle

Step-IsRing :
    {A : Type 0} {s t : System A} {a : Act A} {ins outs : List A}
    → Step 1 s a t
    → IsRing s ins outs
    → IsRing t (ins ++ put_in a) (outs ++ taken_out a)
Step-IsRing {s = s} (calls_enqueue i v l idle) r =
    quiet-IsRing (begun-IsRing s i v (omega arith) idle r)
Step-IsRing {s = s} (calls_dequeue i idle) r = quiet-IsRing (record {
  front = r.front;
  core = r.core;
  fits =
      update_all (Fits s.memory.dequeue_num s.memory.cells (mask s.memory) r.front) s.consumers i
        loads tt r.fits;
})
Step-IsRing ends_enqueue r = quiet-IsRing (record {
  front = r.front;
  core = record {
    power = r.core.power;
    at = r.core.at;
    ordered = r.core.ordered;
    bounded = r.core.bounded;
    order = r.core.order;
  };
  fits = r.fits;
})
Step-IsRing {s = s} (produces i spurious l) r = produces-IsRing s spurious i (omega arith) r
Step-IsRing {s = s} {ins = ins} {outs = outs} (consumes i spurious) r =
    let c =
      consume-Consumed spurious s.memory (s.producers 0) (s.consumers i) r.front ins outs r.core
        (r.fits i) in
    let m = (consume spurious s.memory (s.consumers i)).0 in
    record {
      front = r.front;
      core = c.kept;
      fits =
          update_all (Fits m.dequeue_num m.cells (mask m) r.front) s.consumers i
            (consume spurious s.memory (s.consumers i)).1 c.own
            (λ j. c.others (s.consumers j) (r.fits j));
    }

Run-IsRing :
    {A : Type 0} {s : System A} {ins outs : List A} {t : System A}
    → IsRing s [] []
    → Run 1 s ins outs t
    → IsRing t ins outs
Run-IsRing r here = r
Run-IsRing r (next run st) = Step-IsRing st (Run-IsRing r run)

-- A new queue, with no thread in a call.
abbrev pub idle : {A : Type 0} → ℕ → (ℕ → A) → System A
idle size cells = record {
  memory = record {
    size = size;
    is_enqueue_done = false;
    is_dequeue_done = false;
    enqueue_num = some 0;
    dequeue_num = 0;
    cells = cells;
  };
  producers = λ i. away;
  consumers = λ i. rests;
}

-- However one producer and any number of consumers take turns, on a ring of a power of two: the
-- values taken are those put in, in the same order and none twice; the others wait in the ring, and
-- are never more than its size.
pub Run-fifo :
    {A : Type 0} (k : ℕ) (cells : ℕ → A) {ins outs : List A} {t : System A}
    → Run 1 (idle (pow2 k) cells) ins outs t
    → (waiting : List A) × (ins ≡ outs ++ waiting) × (length waiting ≤ t.memory.size)
Run-fifo {A} k cells {t = t} run =
    let start : IsRing (idle (pow2 k) cells) [] [] = record {
      front = 0;
      core = record {
        power = (k, refl);
        at = refl;
        ordered = omega arith;
        bounded = omega arith;
        order = refl;
      };
      fits = λ j. tt;
    } in
    let r = Run-IsRing start run in
    let n : ℕ = r.front - t.memory.dequeue_num in
    (
      values t.memory.cells (mask t.memory) t.memory.dequeue_num n,
      r.core.order,
      omega (
        arith,
        length-values t.memory.cells (mask t.memory) t.memory.dequeue_num n,
        r.core.bounded,
      ),
    )
