-- ===== src/Unittest/Lockfree.antt =====
-- unittest/t_utils/t_lockfree.cpp: ten producers that put the numbers below 100 into a queue that is
-- not part of the repository (Net.Queue), and the count of what comes out after they have ended; and
-- producers that number their items by a shared counter. `enqueue` is one step of its thread, as the
-- queue promises. `none`: an access outside `dequeued`, or no fuel left.
pub mod Counts
pub mod Numbering
mod Tests
use cxxprogram.Prelude.{
  Bool, List, Option, false, get_elem?, if◌then◌else◌, none, replicate, set, some, suc, true, zero,
  ℕ, ◌*◌, ◌+◌, ◌<◌, ◌==◌, ◌>>=◌,
}
use mathlib.Core.Option
use cxxprogram.Net.Queue.{ConcurrentQueue}

-- How far each producer is in its loop.
abbrev pub Progress : Type 0
Progress = ℕ → ℕ

abbrev pub advance : Progress → ℕ → Progress
advance p i j = if i == j then suc (p j) else p j

-- `++dequeued[item]`.
unfoldable pub increment : List ℕ → ℕ → Option (List ℕ)
increment dequeued item = Option.map (λ n. set dequeued item (suc n)) (get_elem? dequeued item)

-- `assert(dequeued[i] == 1)`, for the next `k` places.
unfoldable pub asserts : ℕ → ℕ → List ℕ → Option Bool
asserts zero i dequeued = some true
asserts (suc k) i dequeued =
    let rest = asserts k (i + 1) dequeued in
    elim (get_elem? dequeued i) [ none ↦ none | some n ↦ if n == 1 then rest else some false ]

module _ (Q : ConcurrentQueue ℕ) where
  pub record State : Type 0 where
    pub q : Q.Carrier
    pub progress : Progress

  -- One turn of the loop of producer `i`.
  pub data Step (s : State) : State → Type 0 where
    enqueues :
        (i : ℕ)
        → i < 10
        → s.progress i < 10
        → Step s
            (record { q = Q.enqueue (i * 10 + s.progress i) s.q; progress = advance s.progress i })

  pub data Reach (s : State) : State → Type 0 where
    here : Reach s s
    next : {t u : State} → Reach s t → Step t u → Reach s u

  abbrev pub begin : State
  begin = record { q = Q.empty; progress = λ i. 0 }

  -- `while (q.try_dequeue(item)) ++dequeued[item]`, on fuel.
  unfoldable pub collect : ℕ → Q.Carrier → List ℕ → Option (List ℕ × Q.Carrier)
  collect zero q dequeued = none
  collect (suc fuel) q dequeued = elim (Q.try_dequeue q) [
    | none ↦ some (dequeued, q)
    | some (item, q') ↦ increment dequeued item >>= collect fuel q'
  ]

  -- What `co_lock_free` does after the threads have joined; false is a failed assertion.
  unfoldable pub finish : ℕ → Q.Carrier → Option Bool
  finish fuel q = do
    (dequeued, q') ← collect fuel q (replicate 100 0)
    (dequeued', q'') ← collect fuel q' dequeued
    asserts 100 0 dequeued'
