-- ===== src/Unittest/Lockfree/Numbering/Printing.antt =====
-- What is printed by `producer_consumer` (unittest/t_utils/t_lockfree.cpp), with its one producer.
use mathlib.Core.List.{Perm, perm_middle}
use mathlib.Core.List.Perm
use cxxprogram.Prelude.{
  List, [], append_assoc, arith, refl, subst, suc, sym, zero, ℕ, ◌%◌, ◌++◌, ◌^◌, ◌∷◌, ◌≡◌,
}
use cxxprogram.Net.Queue.{ConcurrentQueue}
use cxxprogram.Unittest.Lockfree.Numbering.{
  producer_count, to_id, Producer, counts, loads, puts, Numbering, begin, Step, adds, reads,
  enqueues, prints, Reach, here, next,
}

-- The identifiers for the numbers from `n` down to 1.
abbrev pub ids_from : ℕ → List ℕ
ids_from zero = []
ids_from (suc n) = to_id (suc n) ∷ ids_from n

-- What the producer's place says of the counter.
abbrev Numbers : ℕ → ℕ → Producer → Type 0
Numbers index made counts = index ≡ made % 2 ^ 64
Numbers index made loads = index ≡ suc made % 2 ^ 64
Numbers index made (puts id) = (index ≡ suc made % 2 ^ 64) × (id ≡ to_id (suc made))

module _ (Q : ConcurrentQueue ℕ) where
  record IsNumbered (s : Numbering Q) : Type 0 where
    place : Numbers s.index s.made (s.producers 0)
    all : Perm (s.printed ++ Q.items s.item_queue) (ids_from s.made)

  -- An item that is put in is one more of those printed and those that wait.
  all-enqueue :
      (s : Numbering Q) (id : ℕ)
      → id ≡ to_id (suc s.made)
      → Perm (s.printed ++ Q.items s.item_queue) (ids_from s.made)
      → Perm (s.printed ++ Q.items (Q.enqueue id s.item_queue)) (ids_from (suc s.made))
  all-enqueue s id e all =
      Perm.trans (Perm.append_left s.printed (Q.items-enqueue id s.item_queue)) (
        Perm.trans (perm_middle s.printed (Q.items s.item_queue)) (
          subst (λ k. Perm (id ∷ (s.printed ++ Q.items s.item_queue)) (k ∷ ids_from s.made)) e
            (Perm.cons id all)))

  Step-IsNumbered :
      (s : Numbering Q) {t : Numbering Q} → Step Q producer_count s t → IsNumbered s → IsNumbered t
  Step-IsNumbered s (adds zero h e) v =
      let p : s.index ≡ s.made % 2 ^ 64 = subst (Numbers s.index s.made) e v.place in
      record { place = omega (arith, p); all = v.all }
  Step-IsNumbered s (adds (suc i) h e) v = absurd (omega arith)
  Step-IsNumbered s (reads zero h e) v =
      let p : s.index ≡ suc s.made % 2 ^ 64 = subst (Numbers s.index s.made) e v.place in
      record { place = (p, omega arith); all = v.all }
  Step-IsNumbered s (reads (suc i) h e) v = absurd (omega arith)
  Step-IsNumbered s (enqueues zero id h e) v =
      let (p, last) = subst (Numbers s.index s.made) e v.place in
      record { place = omega (arith, p); all = all-enqueue s id last v.all }
  Step-IsNumbered s (enqueues (suc i) id h e) v = absurd (omega arith)
  Step-IsNumbered s (prints items q h p) v = record {
    place = v.place;
    all =
        subst (λ l. Perm l (ids_from s.made)) (sym (append_assoc s.printed items (Q.items q)))
          (Perm.trans (Perm.append_left s.printed (Perm.symm p)) v.all);
  }

  Reach-IsNumbered : {s t : Numbering Q} → IsNumbered s → Reach Q producer_count s t → IsNumbered t
  Reach-IsNumbered v here = v
  Reach-IsNumbered v (next r st) = Step-IsNumbered _ st (Reach-IsNumbered v r)

  -- However the producer and the consumer take turns, whatever the queue that keeps its promises: the
  -- identifiers printed and those that wait are, in some order, the numbers from 1 to the number of
  -- items put in, each once and as an `int`.
  pub Reach-numbered :
      {t : Numbering Q}
      → Reach Q producer_count (begin Q) t
      → Perm (t.printed ++ Q.items t.item_queue) (ids_from t.made)
  Reach-numbered r =
      (Reach-IsNumbered
        (record { place = refl; all = subst (λ l. Perm l []) (sym Q.items-empty) (Perm.refl []) })
        r).all
