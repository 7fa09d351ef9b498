-- ===== src/Unittest/Lockfree/Numbering.antt =====
-- `producer_consumer` of unittest/t_utils/t_lockfree.cpp: producers number their items by a counter
-- that they share, each in two accesses, and a consumer prints what it takes. `ProducerCount` is 1 in
-- the file; the steps are those of any number of producers. The counter is a `size_t`, and an `id` the
-- bit pattern of an `int`. `try_dequeue_bulk` is not part of the repository: it hands over items that
-- wait, at most as many as it is asked for, and leaves the others.
pub mod Printing
use mathlib.Core.List.{Perm}
use cxxprogram.Prelude.{
  List, [], if◌then◌else◌, length, suc, ℕ, ◌++◌, ◌+◌, ◌%◌, ◌<◌, ◌==◌, ◌^◌, ◌≡◌, ◌≤◌,
}
use cxxprogram.Net.Queue.{ConcurrentQueue}

-- `ProducerCount`.
abbrev pub producer_count : ℕ
producer_count = 1

-- `item.id = index.load()`, which makes a `size_t` an `int`.
abbrev pub to_id : ℕ → ℕ
to_id index = index % 2 ^ 32

-- Where a producer is: before `index++`, before `index.load`, and before `enqueue`.
pub data Producer : Type 0 where
  counts loads : Producer
  puts : ℕ → Producer

abbrev pub set_producer : (ℕ → Producer) → ℕ → Producer → ℕ → Producer
set_producer f i p j = if i == j then p else f j

module _ (Q : ConcurrentQueue ℕ) where
  pub record Numbering : Type 0 where
    pub index : ℕ
    pub item_queue : Q.Carrier
    pub producers : ℕ → Producer
    -- How many items have been put in, and those that have been printed.
    pub made : ℕ
    pub printed : List ℕ

  abbrev pub begin : Numbering
  begin = record {
    index = 0;
    item_queue = Q.empty;
    producers = λ i. counts;
    made = 0;
    printed = [];
  }

  -- A step of one of `n` producers, or of the consumer.
  pub data Step (n : ℕ) (s : Numbering) : Numbering → Type 0 where
    adds :
        (i : ℕ)
        → i < n
        → s.producers i ≡ counts
        → Step n s (record s {
          index = (s.index + 1) % 2 ^ 64;
          producers = set_producer s.producers i loads;
        })
    reads :
        (i : ℕ)
        → i < n
        → s.producers i ≡ loads
        → Step n s (record s { producers = set_producer s.producers i (puts (to_id s.index)) })
    enqueues :
        (i id : ℕ)
        → i < n
        → s.producers i ≡ puts id
        → Step n s (record s {
          item_queue = Q.enqueue id s.item_queue;
          producers = set_producer s.producers i counts;
          made = suc s.made;
        })
    prints :
        (items : List ℕ) (q : Q.Carrier)
        → length items ≤ 10
        → Perm (Q.items s.item_queue) (items ++ Q.items q)
        → Step n s (record s { item_queue = q; printed = s.printed ++ items })

  pub data Reach (n : ℕ) (s : Numbering) : Numbering → Type 0 where
    here : Reach n s s
    next : {t u : Numbering} → Reach n s t → Step n t u → Reach n s u
