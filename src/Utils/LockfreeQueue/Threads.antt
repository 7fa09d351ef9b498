-- ===== src/Utils/LockfreeQueue/Threads.antt =====
-- engine/utils/lockfree_queue.hpp: `Enqueue` and `Dequeue` as the threads run them, one access to
-- shared memory at a time, in the order of the code. An access is taken to be atomic, to a cell too;
-- the counters do not wrap. `spurious` is the failure that `atomic_compare_exchange_weak` may have.
use Prim.Native.Nat.{bit_and}
use cxxprogram.Prelude.{
  Bool, List, Option, [], false, if◌then◌else◌, leb, none, not, some, true, ℕ, ◌&&◌, ◌++◌, ◌+◌, ◌-◌,
  ◌<◌, ◌==◌, ◌∷◌, ◌≡◌,
}

pub record Memory (A : Type 0) : Type 0 where
  pub size : ℕ
  pub is_enqueue_done : Bool
  pub is_dequeue_done : Bool
  -- `m_enqueue_num`; `none` is -1.
  pub enqueue_num : Option ℕ
  pub dequeue_num : ℕ
  pub cells : ℕ → A

-- Where a producer is, with its local variables: before each access to the counters or the cells.
pub data Producer (A : Type 0) : Type 0 where
  away : Producer A
  -- The two reads of the test for a full ring.
  tests : A → Producer A
  tests_room : A → Option ℕ → Producer A
  -- `old_num = m_enqueue_num`, the second look at it, and the exchange.
  reads : A → Producer A
  checks : A → Option ℕ → Producer A
  swaps : A → Option ℕ → Producer A
  -- The cell, and then the number.
  writes : A → Option ℕ → Producer A
  publishes : A → Option ℕ → Producer A

pub data Consumer (A : Type 0) : Type 0 where
  rests : Consumer A
  -- `old_num_ = m_dequeue_num`, and the two reads of the comparison.
  loads : Consumer A
  compares : ℕ → Consumer A
  bounds : ℕ → ℕ → Consumer A
  -- The two reads of `m_data[m_dequeue_num & (m_size - 1)]`, and the exchange.
  copies : ℕ → Consumer A
  picks : ℕ → ℕ → Consumer A
  claims : ℕ → A → Consumer A

-- What a step does that others see: a value is put in, or one is taken.
pub data Act (A : Type 0) : Type 0 where
  quiet : Act A
  puts : A → Act A
  takes : A → Act A

abbrev pub mask : {A : Type 0} → Memory A → ℕ
mask m = m.size - 1

-- `-1 & mask` is the mask itself, and `-1 + 1` is 0.
abbrev pub slot_of : ℕ → Option ℕ → ℕ
slot_of mask none = mask
slot_of mask (some n) = bit_and n mask

abbrev pub next_num : Option ℕ → ℕ
next_num none = 0
next_num (some n) = n + 1

abbrev pub same_num : Option ℕ → Option ℕ → Bool
same_num none none = true
same_num none (some n) = false
same_num (some m) none = false
same_num (some m) (some n) = m == n

-- `m_enqueue_num - m_dequeue_num >= m_size`.
abbrev pub is_full : ℕ → Option ℕ → ℕ → Bool
is_full size none d = false
is_full size (some e) d = leb size (e - d)

abbrev pub write_cell : {A : Type 0} → (ℕ → A) → ℕ → A → ℕ → A
write_cell cells n v i = if i == n then v else cells i

unfoldable pub produce : {A : Type 0} → Bool → Memory A → Producer A → Memory A × Producer A × Act A
produce spurious m away = (m, away, quiet)
produce spurious m (tests v) = (m, tests_room v m.enqueue_num, quiet)
produce spurious m (tests_room v e) =
    (m, if is_full m.size e m.dequeue_num then tests v else reads v, quiet)
produce spurious m (reads v) = (m, checks v m.enqueue_num, quiet)
produce spurious m (checks v old) =
    (m, elim m.enqueue_num [ none ↦ reads v | some e ↦ swaps v old ], quiet)
produce spurious m (swaps v old) =
    if not spurious && same_num old m.enqueue_num
    then (record m { enqueue_num = none }, writes v old, quiet)
    else (m, reads v, quiet)
produce spurious m (writes v old) =
    (record m { cells = write_cell m.cells (slot_of (mask m) old) v }, publishes v old, quiet)
produce spurious m (publishes v old) =
    (record m { enqueue_num = some (next_num old) }, away, puts v)

-- Nothing to take: the end if `set_is_enqueue_done` was called, or another round.
abbrev pub nothing_yet : {A : Type 0} → Memory A → Memory A × Consumer A × Act A
nothing_yet m =
    if m.is_enqueue_done
    then (record m { is_dequeue_done = true }, rests, quiet)
    else (m, loads, quiet)

unfoldable pub consume : {A : Type 0} → Bool → Memory A → Consumer A → Memory A × Consumer A × Act A
consume spurious m rests = (m, rests, quiet)
consume spurious m loads = (m, compares m.dequeue_num, quiet)
consume spurious m (compares old) = (m, bounds old m.dequeue_num, quiet)
consume spurious m (bounds old d) = elim m.enqueue_num [
  | none ↦ nothing_yet m
  | some e ↦ if leb e d then nothing_yet m else (m, copies old, quiet)
]
consume spurious m (copies old) = (m, picks old m.dequeue_num, quiet)
consume spurious m (picks old d) = (m, claims old (m.cells (bit_and d (mask m))), quiet)
consume spurious m (claims old v) =
    if not spurious && m.dequeue_num == old
    then (record m { dequeue_num = old + 1 }, rests, takes v)
    else (m, loads, quiet)

pub record System (A : Type 0) : Type 0 where
  pub memory : Memory A
  pub producers : ℕ → Producer A
  pub consumers : ℕ → Consumer A

abbrev pub update : {B : Type 0} → (ℕ → B) → ℕ → B → ℕ → B
update f i b j = if i == j then b else f j

-- What thread `i` makes of the system by a step with that outcome.
abbrev pub with_producer : {A : Type 0} → System A → ℕ → Memory A × Producer A × Act A → System A
with_producer s i (m, p, a) = record s { memory = m; producers = update s.producers i p }

abbrev pub with_consumer : {A : Type 0} → System A → ℕ → Memory A × Consumer A × Act A → System A
with_consumer s i (m, c, a) = record s { memory = m; consumers = update s.consumers i c }

-- A step of one of `n` producers or of a consumer; a call begins when the thread is not in one.
pub data Step {A : Type 0} (n : ℕ) (s : System A) : Act A → System A → Type 0 where
  calls_enqueue :
      (i : ℕ) (v : A)
      → i < n
      → s.producers i ≡ away
      → Step n s quiet (record s { producers = update s.producers i (tests v) })
  calls_dequeue :
      (i : ℕ)
      → s.consumers i ≡ rests
      → Step n s quiet (record s { consumers = update s.consumers i loads })
  ends_enqueue : Step n s quiet (record s { memory = record s.memory { is_enqueue_done = true } })
  produces :
      (i : ℕ) (spurious : Bool)
      → i < n
      → Step n s
          (produce spurious s.memory (s.producers i)).2
          (with_producer s i (produce spurious s.memory (s.producers i)))
  consumes :
      (i : ℕ) (spurious : Bool)
      → Step n s
          (consume spurious s.memory (s.consumers i)).2
          (with_consumer s i (consume spurious s.memory (s.consumers i)))

abbrev pub put_in : {A : Type 0} → Act A → List A
put_in quiet = []
put_in (puts v) = v ∷ []
put_in (takes v) = []

abbrev pub taken_out : {A : Type 0} → Act A → List A
taken_out quiet = []
taken_out (puts v) = []
taken_out (takes v) = v ∷ []

-- Steps in turn, with the values that were put in and those that were taken, in their order.
pub data Run {A : Type 0} (n : ℕ) (s : System A) : List A → List A → System A → Type 0 where
  here : Run n s [] [] s
  next :
      {ins outs : List A} {t u : System A} {a : Act A}
      → Run n s ins outs t
      → Step n t a u
      → Run n s (ins ++ put_in a) (outs ++ taken_out a) u
