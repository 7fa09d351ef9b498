-- ===== src/Utils/LockfreeQueue/Interleaving/Producing.antt =====
-- `Enqueue` of engine/utils/lockfree_queue.hpp, one access after another: what a step keeps.
use Prim.Native.Nat.{bit_and}
use cxxprogram.Prelude.{
  Bool, Bool-cases, List, Option, [], ap, append-nil, append_assoc, arith, false, if◌then◌else◌,
  inl, inr, none, not, refl, some, subst, suc, sym, true, ℕ, ◌&&◌, ◌++◌, ◌+◌, ◌-◌, ◌<◌, ◌==◌, ◌∙◌,
  ◌∷◌, ◌≡◌, ◌≤◌,
}
use cxxprogram.Utils.LockfreeQueue.Fifo.{values, values_last, write_cell_self}
use cxxprogram.Utils.LockfreeQueue.Threads.{
  Memory, Producer, away, tests, tests_room, reads, checks, swaps, writes, publishes, quiet, puts,
  mask, slot_of, next_num, same_num, is_full, write_cell, produce,
}
use cxxprogram.Utils.LockfreeQueue.Interleaving.Knowledge.{
  Core-nil, moved, Fits-suc, Fits-write_ring, values-write_ring, Core, Produced,
}

room_of : (size deq e : ℕ) (o : Option ℕ) → o ≡ some e → is_full size o deq ≡ false → e < deq + size
room_of size deq e none h n = cc
room_of size deq e (some x) h n = ground arith

-- The producer writes the cell that is free.
written :
    {A : Type 0} {m : Memory A} {v : A} {o : Option ℕ} {e : ℕ} {ins outs : List A}
    → Core m (writes v o) e ins outs
    → Produced m e ins outs (
      record m { cells = write_cell m.cells (slot_of (mask m) (some e)) v },
      publishes v o,
      quiet,
    )
written {m = m} {v = v} {e = e} {outs = outs} c =
    let (locked, own, room) = c.at in
    record {
      front = e;
      core = Core-nil (record {
        power = c.power;
        at = (locked, own, room, write_cell_self m.cells (bit_and e (mask m)) v);
        ordered = c.ordered;
        bounded = c.bounded;
        order =
            c.order
            ∙ ap (◌++◌ outs)
                (sym (values-write_ring m.size m.dequeue_num e m.cells v c.power c.ordered room));
      });
      fits = λ d f. Fits-write_ring m.size m.dequeue_num e m.cells v d c.power room f;
    }

one_more :
    {A : Type 0} (cells : ℕ → A) (mask deq e : ℕ) (v : A)
    → deq ≤ e
    → cells (bit_and e mask) ≡ v
    → values cells mask deq (e - deq) ++ v ∷ [] ≡ values cells mask deq (e + 1 - deq)
one_more cells mask deq e v o h =
    let last : deq + (e - deq) ≡ e = omega (arith, o) in
    let count : suc (e - deq) ≡ e + 1 - deq = omega (arith, o) in
    ap (λ x. values cells mask deq (e - deq) ++ x ∷ [])
      (sym h ∙ ap (λ n. cells (bit_and n mask)) (sym last))
    ∙ sym (values_last cells mask deq (e - deq))
    ∙ ap (values cells mask deq) count

pub oldest :
    {A : Type 0} (cells : ℕ → A) (mask deq e : ℕ) (v : A)
    → deq < e
    → v ≡ cells (bit_and deq mask)
    → values cells mask deq (e - deq) ≡ v ∷ values cells mask (deq + 1) (e - (deq + 1))
oldest cells mask deq e v o h =
    let count : e - deq ≡ suc (e - (deq + 1)) = omega (arith, o) in
    ap (values cells mask deq) count
    ∙ ap (λ x. x ∷ values cells mask (deq + 1) (e - (deq + 1))) (sym h)

pub exchanged : (spurious : Bool) (a b : ℕ) → (not spurious && a == b) ≡ true → a ≡ b
exchanged true a b h = cc
exchanged false a b h = ground arith

-- The number goes up: the value in the cell has been put in.
published :
    {A : Type 0} {m : Memory A} {v : A} {o : Option ℕ} {e : ℕ} {ins outs : List A}
    → Core m (publishes v o) e ins outs
    → Produced m e ins outs (record m { enqueue_num = some (e + 1) }, away, puts v)
published {m = m} {v = v} {e = e} {ins = ins} {outs = outs} c =
    let (locked, own, room, cell) = c.at in
    record {
      front = e + 1;
      core = record {
        power = c.power;
        at = refl;
        ordered = omega (arith, c.ordered);
        bounded = omega (arith, room);
        order =
            ap (λ l. l ++ v ∷ []) c.order
            ∙ append_assoc outs (values m.cells (mask m) m.dequeue_num (e - m.dequeue_num)) (v ∷ [])
            ∙ ap (◌++◌ outs) (one_more m.cells (mask m) m.dequeue_num e v c.ordered cell)
            ∙ ap (λ l. l ++ values m.cells (mask m) m.dequeue_num (e + 1 - m.dequeue_num))
                (sym (append-nil outs));
      };
      fits = λ d f. Fits-suc m.dequeue_num (mask m) e m.cells d f;
    }

swapped :
    {A : Type 0} {m : Memory A} {v : A} {o : Option ℕ} {e : ℕ} {ins outs : List A}
    → Core m (swaps v o) e ins outs
    → Produced m e ins outs (record m { enqueue_num = none }, writes v o, quiet)
swapped {e = e} c = record {
  front = e;
  core = Core-nil (record {
    power = c.power;
    at = (refl, c.at.1, c.at.2);
    ordered = c.ordered;
    bounded = c.bounded;
    order = c.order;
  });
  fits = λ d f. f;
}

pub produce-Produced :
    {A : Type 0} (spurious : Bool) (m : Memory A) (p : Producer A) (e : ℕ) (ins outs : List A)
    → Core m p e ins outs
    → Produced m e ins outs (produce spurious m p)
unfolding produce
produce-Produced spurious m away e ins outs c = moved away c c.at
produce-Produced spurious m (tests v) e ins outs c =
    moved (tests_room v m.enqueue_num) c (c.at, c.at)
produce-Produced spurious m (tests_room v o) e ins outs c =
    elim (Bool-cases (is_full m.size o m.dequeue_num)) [
      | inl full ↦
          subst (λ (b : Bool). Produced m e ins outs (m, if b then tests v else reads v, quiet))
            (sym full) (moved (tests v) c c.at.0)
      | inr free ↦
          subst (λ (b : Bool). Produced m e ins outs (m, if b then tests v else reads v, quiet))
            (sym free) (moved (reads v) c (c.at.0, room_of m.size m.dequeue_num e o c.at.1 free))
    ]
produce-Produced spurious m (reads v) e ins outs c =
    moved (checks v m.enqueue_num) c (c.at.0, c.at.0, c.at.1)
produce-Produced spurious m (checks v o) e ins outs c =
    subst (λ n. Produced m e ins outs (m, elim n [ none ↦ reads v | some e ↦ swaps v o ], quiet))
      (sym c.at.0) (moved (swaps v o) c c.at)
produce-Produced spurious m (swaps v o) e ins outs c =
    elim (Bool-cases (not spurious && same_num o m.enqueue_num)) [
      | inl won ↦
          subst
            (λ (b : Bool). Produced m e ins outs (
              if b
              then (record m { enqueue_num = none }, writes v o, quiet)
              else (m, reads v, quiet)))
            (sym won) (swapped c)
      | inr lost ↦
          subst
            (λ (b : Bool). Produced m e ins outs (
              if b
              then (record m { enqueue_num = none }, writes v o, quiet)
              else (m, reads v, quiet)))
            (sym lost) (moved (reads v) c (c.at.0, c.at.2))
    ]
produce-Produced spurious m (writes v o) e ins outs c =
    subst
      (λ n.
        Produced m e ins outs
          (record m { cells = write_cell m.cells (slot_of (mask m) n) v }, publishes v o, quiet))
      (sym c.at.1) (written c)
produce-Produced spurious m (publishes v o) e ins outs c =
    subst (λ n. Produced m e ins outs (record m { enqueue_num = some (next_num n) }, away, puts v))
      (sym c.at.1) (published c)
