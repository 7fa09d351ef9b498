-- ===== src/Unittest/Lockfree/Tests.antt =====
-- Producers that put in their numbers one producer after the other; and one that numbers its items.
use mathlib.Core.List.{Perm}
use mathlib.Core.List.Perm
use cxxprogram.Prelude.{
  [], arith, if◌then◌else◌, leb, length, length-append, refl, some, suc, true, zero, ℕ, ◌*◌, ◌+◌,
  ◌-◌, ◌/◌, ◌<◌, ◌∙◌, ◌∷◌, ◌≡◌, ◌≤◌,
}
use cxxprogram.Net.Queue.{ConcurrentQueue, list_queue}
use cxxprogram.Unittest.Lockfree.{State, enqueues, Reach, here, next, begin, finish}
use cxxprogram.Unittest.Lockfree.Counts.{finish_lem}
use cxxprogram.Unittest.Lockfree.Numbering
use cxxprogram.Unittest.Lockfree.Numbering.{
  producer_count, Numbering, adds, reads, enqueues as enqueues_item, prints,
}
use cxxprogram.Unittest.Lockfree.Numbering.Printing.{Reach-numbered}

abbrev Q : ConcurrentQueue ℕ
Q = list_queue ℕ

-- How far producer `j` is after `k` turns.
abbrev place : ℕ → ℕ → ℕ
place k j = if leb 10 (k - j * 10) then 10 else k - j * 10

turns :
    (k : ℕ)
    → k ≤ 100
    → (t : State Q) × Reach Q (begin Q) t × ((j : ℕ) → t.progress j ≡ place k j) × (length t.q ≡ k)
turns zero h = (begin Q, here, λ j. ground arith, refl)
turns (suc k) h =
    let (t, r, at, size) = turns k (omega arith) in
    let i = k / 10 in
    let own : t.progress i < 10 = ground (arith, at i) in
    (
      _,
      next r (enqueues i (omega arith) own),
      λ j. ground (arith, at j, at i),
      length-append t.q ((i * 10 + t.progress i) ∷ []) ∙ omega (arith, size),
    )

all_turns :
    (t : State Q) × Reach Q (begin Q) t
    × ((j : ℕ) → j < 10 → t.progress j ≡ 10)
    × (length t.q < 101)
all_turns =
    let (t, r, at, size) = turns 100 (omega arith) in
    (t, r, λ j h. ground (arith, at j), omega (arith, size))

finish_lem_example : finish Q 101 all_turns.0.q ≡ some true
finish_lem_example = finish_lem Q 101 all_turns.1 all_turns.2 all_turns.3

-- The producer makes two items, the first is printed, and a third is under way.
abbrev turns_of_one : (t : Numbering Q) × Numbering.Reach Q producer_count (Numbering.begin Q) t
turns_of_one = (
  _,
  Numbering.Reach.next
      (Numbering.Reach.next
        (Numbering.Reach.next
          (Numbering.Reach.next
            (Numbering.Reach.next
              (Numbering.Reach.next
                (Numbering.Reach.next
                  (Numbering.Reach.next Numbering.Reach.here (adds 0 (omega arith) refl))
                  (reads 0 (omega arith) refl))
                (enqueues_item 0 1 (omega arith) refl))
              (prints (1 ∷ []) [] (omega arith) (Perm.refl (1 ∷ []))))
            (adds 0 (omega arith) refl))
          (reads 0 (omega arith) refl))
        (enqueues_item 0 2 (omega arith) refl))
      (adds 0 (omega arith) refl),
)

Reach-numbered_example : Perm {A = ℕ} (1 ∷ 2 ∷ []) (2 ∷ 1 ∷ [])
Reach-numbered_example = Reach-numbered Q turns_of_one.1

-- Two producers would both count before they read, and give the number 2 twice.
turns_of_two :
    (t : Numbering Q) × Numbering.Reach Q 2 (Numbering.begin Q) t × (t.item_queue ≡ 2 ∷ 2 ∷ [])
turns_of_two = (
  _,
  Numbering.Reach.next
      (Numbering.Reach.next
        (Numbering.Reach.next
          (Numbering.Reach.next
            (Numbering.Reach.next
              (Numbering.Reach.next Numbering.Reach.here (adds 0 (omega arith) refl))
              (adds 1 (omega arith) refl))
            (reads 0 (omega arith) refl))
          (reads 1 (omega arith) refl))
        (enqueues_item 0 2 (omega arith) refl))
      (enqueues_item 1 2 (omega arith) refl),
  refl,
)
