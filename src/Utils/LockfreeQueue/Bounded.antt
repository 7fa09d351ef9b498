-- ===== src/Utils/LockfreeQueue/Bounded.antt =====
-- The ring of engine/utils/lockfree_queue.hpp as what it promises: a bounded queue. The calls of one
-- run are one after another; a call that would wait is answered so, and changes nothing.
use cxxprogram.Prelude.{
  Bool, Bool-cases, List, Option, [], ap, arith, false, if◌then◌else◌, inl, inr, leb, length, ltb,
  none, refl, some, subst, sym, true, ℕ, ◌++◌, ◌+◌, ◌-◌, ◌∙◌, ◌∷◌, ◌≡◌,
}
use cxxprogram.Utils.LockfreeQueue.{Queue, enqueue, dequeue, slot}
use cxxprogram.Utils.LockfreeQueue.Fifo.{
  IsRing, contents, values, entered, entered-IsRing, entered-contents, length-contents,
  enqueue-full, enqueue-free, full_count, none_waits, one_less, dequeue-empty, dequeue-some,
}

pub data Call (A : Type 0) : Type 0 where
  puts : A → Call A
  takes : Call A

-- What a call answers: the number of the value, and for `Dequeue` the value.
pub data Answer (A : Type 0) : Type 0 where
  waits : Answer A
  queued : ℕ → Answer A
  taken : ℕ → Option A → Answer A

ltb_self : (n : ℕ) → ltb n n ≡ false
ltb_self n = ground arith

abbrev enqueued : {A : Type 0} → Queue A → Option (ℕ × Queue A) → Answer A × Queue A
enqueued q none = (waits, q)
enqueued q (some (n, t)) = (queued n, t)

abbrev dequeued : {A : Type 0} → Queue A → Option (ℕ × Option A × Queue A) → Answer A × Queue A
dequeued q none = (waits, q)
dequeued q (some (n, v, t)) = (taken n v, t)

abbrev call : {A : Type 0} → Queue A → Call A → Answer A × Queue A
call q (puts v) = enqueued q (enqueue q v)
call q takes = dequeued q (dequeue q)

abbrev pub answers : {A : Type 0} → Queue A → List (Call A) → List (Answer A)
answers q [] = []
answers q (c ∷ cs) = let (a, t) = call q c in a ∷ answers t cs

-- The promise: the values that wait, at most `size`, and how many have come out.
pub record Bounded (A : Type 0) : Type 0 where
  pub size : ℕ
  pub is_done : Bool
  pub outs : ℕ
  pub waiting : List A

abbrev pub promised_put : {A : Type 0} → Bounded A → A → Bool → Answer A × Bounded A
promised_put b v is_room =
    if is_room
    then (queued (b.outs + length b.waiting + 1), record b { waiting = b.waiting ++ v ∷ [] })
    else (waits, b)

abbrev pub promised_take : {A : Type 0} → Bounded A → List A → Answer A × Bounded A
promised_take b [] = (if b.is_done then taken 0 none else waits, b)
promised_take b (v ∷ vs) =
    (taken (b.outs + 1) (some v), record b { outs = b.outs + 1; waiting = vs })

abbrev pub promised : {A : Type 0} → Bounded A → Call A → Answer A × Bounded A
promised b (puts v) = promised_put b v (ltb (length b.waiting) b.size)
promised b takes = promised_take b b.waiting

abbrev pub promised_all : {A : Type 0} → Bounded A → List (Call A) → List (Answer A)
promised_all b [] = []
promised_all b (c ∷ cs) = let (a, t) = promised b c in a ∷ promised_all t cs

abbrev pub abstract_of : {A : Type 0} → Queue A → Bounded A
abstract_of q = record {
  size = q.size;
  is_done = q.is_enqueue_done;
  outs = q.dequeue_num;
  waiting = contents q;
}

-- The ring answers as promised, and the promise is kept for what is left.
abbrev IsKept : {A : Type 0} → Queue A → Call A → Answer A × Queue A → Type 0
IsKept q c (a, t) = IsRing t × (promised (abstract_of q) c ≡ (a, abstract_of t))

puts-IsKept : {A : Type 0} (q : Queue A) (v : A) → IsRing q → IsKept q (puts v) (call q (puts v))
puts-IsKept q v w = elim (Bool-cases (leb q.size (q.enqueue_num - q.dequeue_num))) [
  | inl full ↦
      let none_free : ltb (length (contents q)) q.size ≡ false =
        ap (λ n. ltb n q.size) (length-contents q ∙ full_count q w full) ∙ ltb_self q.size in
      subst (λ o. IsKept q (puts v) (enqueued q o)) (sym (enqueue-full q v full))
        (w, ap (promised_put (abstract_of q) v) none_free)
  | inr free ↦
      let room : ltb (length (contents q)) q.size ≡ true =
        ap (λ n. ltb n q.size) (length-contents q) ∙ ground arith in
      let number : q.dequeue_num + length (contents q) + 1 ≡ q.enqueue_num + 1 =
        omega (arith, length-contents q, w.ordered) in
      let same : contents q ++ v ∷ [] ≡ contents (entered q v) =
        sym (entered-contents q v w (ground arith)) in
      subst (λ o. IsKept q (puts v) (enqueued q o)) (sym (enqueue-free q v free))
        (
          entered-IsRing q v w free,
          ap (promised_put (abstract_of q) v) room
              ∙ (λ i. (queued (number i), record (abstract_of q) { waiting = same i })),
        )
]

takes-IsKept : {A : Type 0} (q : Queue A) → IsRing q → IsKept q takes (call q takes)
takes-IsKept q w = elim (Bool-cases (leb q.enqueue_num q.dequeue_num)) [
  | inl none_left ↦
      let empty : contents q ≡ [] =
        ap (λ n. values q.cells (q.size - 1) q.dequeue_num n) (none_waits q none_left) in
      elim (dequeue-empty q none_left (Bool-cases q.is_enqueue_done)) [
        | inl (running, e) ↦
            subst (λ o. IsKept q takes (dequeued q o)) (sym e)
              (
                w,
                ap (promised_take (abstract_of q)) empty
                    ∙ ap (λ (b : Bool). (if b then taken 0 none else waits, abstract_of q)) running,
              )
        | inr (done, e) ↦
            subst (λ o. IsKept q takes (dequeued q o)) (sym e)
              (
                record { power = w.power; ordered = w.ordered; bounded = w.bounded },
                ap (promised_take (abstract_of q)) empty
                    ∙ ap (λ (b : Bool). (if b then taken 0 none else waits, abstract_of q)) done,
              )
      ]
  | inr some_left ↦
      let first : contents q
          ≡ q.cells (slot q q.dequeue_num)
            ∷ contents (record q { dequeue_num = q.dequeue_num + 1 }) =
        ap (λ n. values q.cells (q.size - 1) q.dequeue_num n) (one_less q some_left) in
      subst (λ o. IsKept q takes (dequeued q o)) (sym (dequeue-some q some_left))
        (
          record { power = w.power; ordered = ground arith; bounded = omega (arith, w.bounded) },
          ap (promised_take (abstract_of q)) first,
        )
]

call-IsKept : {A : Type 0} (q : Queue A) (c : Call A) → IsRing q → IsKept q c (call q c)
call-IsKept q (puts v) w = puts-IsKept q v w
call-IsKept q takes w = takes-IsKept q w

-- On a well-formed ring every run of calls is answered as a bounded queue of that size answers it:
-- first in, first out, a full one takes nothing, an empty one gives nothing, and says so when
-- `set_is_enqueue_done` was called.
pub answers-promised_all :
    {A : Type 0} (q : Queue A) (cs : List (Call A))
    → IsRing q
    → answers q cs ≡ promised_all (abstract_of q) cs
answers-promised_all q [] w = refl
answers-promised_all q (c ∷ cs) w =
    let (t, e) = call-IsKept q c w in
    ap (λ l. (call q c).0 ∷ l) (answers-promised_all (call q c).1 cs t)
    ∙ ap (λ p. p.0 ∷ promised_all p.1 cs) (sym e)
