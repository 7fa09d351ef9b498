-- ===== src/Utils/LockfreeQueue/Interleaving/Consuming.antt =====
-- `Dequeue` of engine/utils/lockfree_queue.hpp, one access after another: what a step keeps.
use Prim.Native.Nat.{bit_and}
use cxxprogram.Prelude.{
  Bool, Bool-cases, List, Option, [], ap, append-nil, append_assoc, arith, false, if◌then◌else◌,
  inl, inr, leb, none, not, refl, some, subst, sym, true, ℕ, ◌&&◌, ◌++◌, ◌+◌, ◌-◌, ◌<◌, ◌==◌, ◌∙◌,
  ◌∷◌, ◌≡◌, ◌≤◌,
}
use cxxprogram.Utils.LockfreeQueue.Fifo.{values}
use cxxprogram.Utils.LockfreeQueue.Threads.{
  Memory, Producer, away, tests, tests_room, reads, checks, swaps, writes, publishes, Consumer,
  rests, loads, compares, bounds, copies, picks, claims, Act, quiet, takes, mask, nothing_yet,
  consume, put_in, taken_out,
}
use cxxprogram.Utils.LockfreeQueue.Interleaving.Knowledge.{At, Fits, Core-nil, Core}
use cxxprogram.Utils.LockfreeQueue.Interleaving.Producing.{oldest, exchanged}

-- What a step of a consumer keeps: the memory and the producer, its own part, and the others'.
pub record Consumed {A : Type 0} (m : Memory A) (p : Producer A) (e : ℕ) (ins outs : List A)
    (r : Memory A × Consumer A × Act A) : Type 0 where
  pub kept : Core r.0 p e (ins ++ put_in r.2) (outs ++ taken_out r.2)
  pub own : Fits r.0.dequeue_num r.0.cells (mask r.0) e r.1
  pub others :
      (c : Consumer A)
      → Fits m.dequeue_num m.cells (mask m) e c
      → Fits r.0.dequeue_num r.0.cells (mask r.0) e c

-- A step that only moves the consumer on.
stepped :
    {A : Type 0} {m : Memory A} {p : Producer A} {e : ℕ} {ins outs : List A} (d : Consumer A)
    → Core m p e ins outs
    → Fits m.dequeue_num m.cells (mask m) e d
    → Consumed m p e ins outs (m, d, quiet)
stepped d c f = record { kept = Core-nil c; own = f; others = λ a g. g }

nothing_yet-Consumed :
    {A : Type 0} (m : Memory A) (p : Producer A) (e : ℕ) (ins outs : List A)
    → Core m p e ins outs
    → Consumed m p e ins outs (nothing_yet m)
nothing_yet-Consumed m p e ins outs c = elim (Bool-cases m.is_enqueue_done) [
  | inl done ↦
      subst
        (λ (b : Bool).
          Consumed m p e ins outs
            (if b then (record m { is_dequeue_done = true }, rests, quiet) else (m, loads, quiet)))
        (sym done)
        (record {
          kept = Core-nil (record {
            power = c.power;
            at = c.at;
            ordered = c.ordered;
            bounded = c.bounded;
            order = c.order;
          });
          own = tt;
          others = λ a g. g;
        })
  | inr more ↦
      subst
        (λ (b : Bool).
          Consumed m p e ins outs
            (if b then (record m { is_dequeue_done = true }, rests, quiet) else (m, loads, quiet)))
        (sym more) (stepped loads c tt)
]

-- The number of the next value to take goes up: the producer has no less room, and a consumer that
-- had the old number will not win.
At-later :
    {A : Type 0} (enq : Option ℕ) (deq size e : ℕ) (cells : ℕ → A) (p : Producer A)
    → At enq deq size cells p e
    → At enq (deq + 1) size cells p e
At-later enq deq size e cells away a = a
At-later enq deq size e cells (tests v) a = a
At-later enq deq size e cells (tests_room v o) a = a
At-later enq deq size e cells (reads v) a = (a.0, omega (arith, a.1))
At-later enq deq size e cells (checks v o) a = (a.0, a.1, omega (arith, a.2))
At-later enq deq size e cells (swaps v o) a = (a.0, a.1, omega (arith, a.2))
At-later enq deq size e cells (writes v o) a = (a.0, a.1, omega (arith, a.2))
At-later enq deq size e cells (publishes v o) a = (a.0, a.1, omega (arith, a.2), a.3)

Fits-later :
    {A : Type 0} (deq mask e : ℕ) (cells : ℕ → A) (c : Consumer A)
    → Fits deq cells mask e c
    → Fits (deq + 1) cells mask e c
Fits-later deq mask e cells rests f = tt
Fits-later deq mask e cells loads f = tt
Fits-later deq mask e cells (compares old) f = omega (arith, f)
Fits-later deq mask e cells (bounds old d) f = omega (arith, f.0, f.1)
Fits-later deq mask e cells (copies old) f = omega (arith, f.0, f.1)
Fits-later deq mask e cells (picks old d) f = omega (arith, f.0, f.1, f.2)
Fits-later deq mask e cells (claims old v) f =
    (omega (arith, f.0), f.1, λ same. absurd (omega (arith, same, f.0)))

-- The consumer whose exchange goes through has the oldest value.
claimed :
    {A : Type 0} {m : Memory A} {p : Producer A} {e old : ℕ} {v : A} {ins outs : List A}
    → Core m p e ins outs
    → m.dequeue_num ≡ old
    → Fits m.dequeue_num m.cells (mask m) e (claims old v)
    → Consumed m p e ins outs (record m { dequeue_num = old + 1 }, rests, takes v)
claimed {m = m} {p = p} {e = e} {old = old} {v = v} {ins = ins} {outs = outs} c same f =
    let cell : v ≡ m.cells (bit_and m.dequeue_num (mask m)) =
      f.2 same ∙ ap (λ n. m.cells (bit_and n (mask m))) (sym same) in
    subst (λ n. Consumed m p e ins outs (record m { dequeue_num = n + 1 }, rests, takes v)) same
      (record {
        kept = record {
          power = c.power;
          at = At-later m.enqueue_num m.dequeue_num m.size e m.cells p c.at;
          ordered = omega (arith, f.1, same);
          bounded = omega (arith, c.bounded);
          order =
              append-nil ins
              ∙ c.order
              ∙ ap (◌++◌ outs)
                  (oldest m.cells (mask m) m.dequeue_num e v (omega (arith, f.1, same)) cell)
              ∙ sym (
                  append_assoc outs (v ∷ [])
                    (values m.cells (mask m) (m.dequeue_num + 1) (e - (m.dequeue_num + 1))));
        };
        own = tt;
        others = λ d g. Fits-later m.dequeue_num (mask m) e m.cells d g;
      })

same_some : {a b : ℕ} → some a ≡ some b → a ≡ b
same_some h = ground arith

none-some : {a : ℕ} → none ≡ some a → ⊥
none-some h = cc

below : (x d old e : ℕ) → leb x d ≡ false → x ≡ e → old ≤ d → old < e
below x d old e h same l = ground arith

-- While the number is not locked it is that of the next value.
At-some :
    {A : Type 0} (enq : Option ℕ) (deq size e x : ℕ) (cells : ℕ → A) (p : Producer A)
    → At enq deq size cells p e
    → enq ≡ some x
    → x ≡ e
At-some enq deq size e x cells away a h = same_some (sym h ∙ a)
At-some enq deq size e x cells (tests v) a h = same_some (sym h ∙ a)
At-some enq deq size e x cells (tests_room v o) a h = same_some (sym h ∙ a.0)
At-some enq deq size e x cells (reads v) a h = same_some (sym h ∙ a.0)
At-some enq deq size e x cells (checks v o) a h = same_some (sym h ∙ a.0)
At-some enq deq size e x cells (swaps v o) a h = same_some (sym h ∙ a.0)
At-some enq deq size e x cells (writes v o) a h = absurd (none-some (sym a.0 ∙ h))
At-some enq deq size e x cells (publishes v o) a h = absurd (none-some (sym a.0 ∙ h))

compared :
    {A : Type 0} {m : Memory A} {p : Producer A} {e old d : ℕ} {ins outs : List A}
    → Core m p e ins outs
    → Fits m.dequeue_num m.cells (mask m) e (bounds old d)
    → (n : Option ℕ) → m.enqueue_num ≡ n
    → Consumed m p e ins outs (elim n [
      | none ↦ nothing_yet m
      | some x ↦ if leb x d then nothing_yet m else (m, copies old, quiet)
    ])
compared {m = m} {p = p} {e = e} {ins = ins} {outs = outs} c f none h =
    nothing_yet-Consumed m p e ins outs c
compared {m = m} {p = p} {e = e} {old = old} {d = d} {ins = ins} {outs = outs} c f (some x) h =
    let front : x ≡ e = At-some m.enqueue_num m.dequeue_num m.size e x m.cells p c.at h in
    elim (Bool-cases (leb x d)) [
      | inl empty ↦
          subst
            (λ (b : Bool).
              Consumed m p e ins outs (if b then nothing_yet m else (m, copies old, quiet)))
            (sym empty) (nothing_yet-Consumed m p e ins outs c)
      | inr more ↦
          subst
            (λ (b : Bool).
              Consumed m p e ins outs (if b then nothing_yet m else (m, copies old, quiet)))
            (sym more)
            (stepped (copies old) c (omega (arith, f.0, f.1), below x d old e more front f.0))
    ]

pub consume-Consumed :
    {A : Type 0} (spurious : Bool) (m : Memory A) (p : Producer A) (d : Consumer A) (e : ℕ)
    (ins outs : List A)
    → Core m p e ins outs
    → Fits m.dequeue_num m.cells (mask m) e d
    → Consumed m p e ins outs (consume spurious m d)
unfolding consume
consume-Consumed spurious m p rests e ins outs c f = stepped rests c tt
consume-Consumed spurious m p loads e ins outs c f =
    stepped (compares m.dequeue_num) c (omega arith)
consume-Consumed spurious m p (compares old) e ins outs c f =
    stepped (bounds old m.dequeue_num) c (omega (arith, f))
consume-Consumed spurious m p (bounds old d) e ins outs c f = compared c f m.enqueue_num refl
consume-Consumed spurious m p (copies old) e ins outs c f =
    stepped (picks old m.dequeue_num) c (omega (arith, f.0, f.1))
consume-Consumed spurious m p (picks old d) e ins outs c f =
    stepped (claims old (m.cells (bit_and d (mask m)))) c (
      omega (arith, f.0, f.1),
      f.2,
      λ same. ap (λ n. m.cells (bit_and n (mask m))) (omega (arith, f.0, f.1, same)),
    )
consume-Consumed spurious m p (claims old v) e ins outs c f =
    elim (Bool-cases (not spurious && m.dequeue_num == old)) [
      | inl won ↦
          subst
            (λ (b : Bool). Consumed m p e ins outs (
              if b
              then (record m { dequeue_num = old + 1 }, rests, takes v)
              else (m, loads, quiet)))
            (sym won) (claimed c (exchanged spurious m.dequeue_num old won) f)
      | inr lost ↦
          subst
            (λ (b : Bool). Consumed m p e ins outs (
              if b
              then (record m { dequeue_num = old + 1 }, rests, takes v)
              else (m, loads, quiet)))
            (sym lost) (stepped loads c tt)
    ]
