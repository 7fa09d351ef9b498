-- ===== src/Utils/LockfreeQueue/Fifo.antt =====
-- The ring of engine/utils/lockfree_queue.hpp against the list of the values that wait.
use cxxprogram.Prelude.{
  Bool, Bool-cases, List, [], ap, arith, false, if◌then◌else◌, inl, inr, leb, length, none, refl,
  some, subst, suc, sym, tests, true, zero, ℕ, ◌%◌, ◌++◌, ◌+◌, ◌-◌, ◌<◌, ◌==◌, ◌∙◌, ◌∷◌, ◌≡◌, ◌≢◌,
  ◌≤◌, ◌⊎◌,
}
use Prim.Native.Nat.{bit_and}
use cxxprogram.Prelude.Bits.{pow2, bit_and-mask}
use cxxprogram.Utils.LockfreeQueue.{Queue, slot, enqueue, dequeue}

-- The `n` values from number `i` on, in a ring of `size` cells.
abbrev pub values : {A : Type 0} → (ℕ → A) → ℕ → ℕ → ℕ → List A
values cells mask i zero = []
values cells mask i (suc n) = cells (bit_and i mask) ∷ values cells mask (i + 1) n

abbrev pub contents : {A : Type 0} → Queue A → List A
contents q = values q.cells (q.size - 1) q.dequeue_num (q.enqueue_num - q.dequeue_num)

pub record IsRing {A : Type 0} (q : Queue A) : Type 0 where
  pub power : (k : ℕ) × (q.size ≡ pow2 k)
  pub ordered : q.dequeue_num ≤ q.enqueue_num
  pub bounded : q.enqueue_num ≤ q.dequeue_num + q.size

pub length-values : {A : Type 0} (cells : ℕ → A) (mask i n : ℕ) → length (values cells mask i n) ≡ n
length-values cells mask i zero = refl
length-values cells mask i (suc n) = ap suc (length-values cells mask (i + 1) n)

-- The last value, split off.
pub values_last :
    {A : Type 0} (cells : ℕ → A) (mask i n : ℕ)
    → values cells mask i (suc n) ≡ values cells mask i n ++ cells (bit_and (i + n) mask) ∷ []
values_last cells mask i zero = ap (λ j. cells (bit_and j mask) ∷ []) (omega arith)
values_last cells mask i (suc n) = ap (◌∷◌ (cells (bit_and i mask))) (
    values_last cells mask (i + 1) n
    ∙ ap (λ j. values cells mask (i + 1) n ++ cells (bit_and j mask) ∷ []) (omega arith))

pub values_ext :
    {A : Type 0} (cells after : ℕ → A) (mask i n : ℕ)
    → ((j : ℕ) → i ≤ j → j < i + n → after (bit_and j mask) ≡ cells (bit_and j mask))
    → values after mask i n ≡ values cells mask i n
values_ext cells after mask i zero h = refl
values_ext cells after mask i (suc n) h =
    ap (λ v. v ∷ values after mask (i + 1) n) (h i (omega arith) (omega arith))
    ∙ ap (◌∷◌ (cells (bit_and i mask)))
        (values_ext cells after mask (i + 1) n (λ j a b. h j (omega arith) (omega arith)))

-- Numbers that are less than a ring apart have different slots.
mod_apart : (p a b : ℕ) → a < b → b - a < p → a % p ≢ b % p
mod_apart p a b l h e = grind arith

pub slots_apart :
    (k a b : ℕ) → a < b → b - a < pow2 k → bit_and a (pow2 k - 1) ≢ bit_and b (pow2 k - 1)
slots_apart k a b l h e = mod_apart (pow2 k) a b l h (sym (bit_and-mask k a) ∙ e ∙ bit_and-mask k b)

abbrev write_cell : {A : Type 0} → (ℕ → A) → ℕ → A → ℕ → A
write_cell cells n v i = if i == n then v else cells i

pub write_cell_self : {A : Type 0} (cells : ℕ → A) (n : ℕ) (v : A) → write_cell cells n v n ≡ v
write_cell_self cells n v = ground arith

pub write_cell-other :
    {A : Type 0} (cells : ℕ → A) (n i : ℕ) (v : A) → i ≢ n → write_cell cells n v i ≡ cells i
write_cell-other cells n i v h = ground arith

values-write :
    {A : Type 0} (cells : ℕ → A) (k i n : ℕ) (v : A)
    → n < pow2 k
    → values (write_cell cells (bit_and (i + n) (pow2 k - 1)) v) (pow2 k - 1) i (suc n)
      ≡ values cells (pow2 k - 1) i n ++ v ∷ []
values-write cells k i n v h =
    let mask : ℕ = pow2 k - 1 in
    let after = write_cell cells (bit_and (i + n) mask) v in
    values_last after mask i n
    ∙ ap (λ x. values after mask i n ++ x ∷ []) (write_cell_self cells (bit_and (i + n) mask) v)
    ∙ ap (λ l. l ++ v ∷ [])
        (values_ext cells after mask i n (λ j a b.
          write_cell-other cells (bit_and (i + n) mask) (bit_and j mask) v
            (slots_apart k j (i + n) b (omega arith))))

pub length-contents :
    {A : Type 0} (q : Queue A) → length (contents q) ≡ q.enqueue_num - q.dequeue_num
length-contents q = length-values q.cells (q.size - 1) q.dequeue_num (q.enqueue_num - q.dequeue_num)

abbrev pub entered : {A : Type 0} → Queue A → A → Queue A
entered q v = record q {
  cells = write_cell q.cells (slot q q.enqueue_num) v;
  enqueue_num = q.enqueue_num + 1;
}

pub enqueue-full :
    {A : Type 0} (q : Queue A) (v : A)
    → leb q.size (q.enqueue_num - q.dequeue_num) ≡ true
    → enqueue q v ≡ none
unfolding enqueue
enqueue-full q v h = ground arith

pub enqueue-free :
    {A : Type 0} (q : Queue A) (v : A)
    → leb q.size (q.enqueue_num - q.dequeue_num) ≡ false
    → enqueue q v ≡ some (q.enqueue_num + 1, entered q v)
unfolding enqueue
enqueue-free q v h = ap (λ (b : Bool). if b then none else some (q.enqueue_num + 1, entered q v)) h

pub full_count :
    {A : Type 0} (q : Queue A)
    → IsRing q
    → leb q.size (q.enqueue_num - q.dequeue_num) ≡ true
    → q.enqueue_num - q.dequeue_num ≡ q.size
full_count q w h = omega (tests, w.bounded, w.ordered)

pub entered-contents :
    {A : Type 0} (q : Queue A) (v : A)
    → IsRing q
    → q.enqueue_num - q.dequeue_num < q.size
    → contents (entered q v) ≡ contents q ++ v ∷ []
entered-contents q v w h =
    let (k, e) = w.power in
    let n = q.enqueue_num - q.dequeue_num in
    let last : q.enqueue_num ≡ q.dequeue_num + n = omega (arith, w.ordered) in
    let more : q.enqueue_num + 1 - q.dequeue_num ≡ suc n = omega (arith, w.ordered) in
    ap (λ m. values (write_cell q.cells (slot q q.enqueue_num) v) (q.size - 1) q.dequeue_num m) more
    ∙ ap
        (λ m.
          values (write_cell q.cells (bit_and m (q.size - 1)) v) (q.size - 1) q.dequeue_num (suc n))
        last
    ∙ subst
        (λ p.
          values (write_cell q.cells (bit_and (q.dequeue_num + n) (p - 1)) v) (p - 1) q.dequeue_num
            (suc n)
          ≡ values q.cells (p - 1) q.dequeue_num n ++ v ∷ [])
        (sym e) (values-write q.cells k q.dequeue_num n v (omega (arith, h, e)))

pub entered-IsRing :
    {A : Type 0} (q : Queue A) (v : A)
    → IsRing q
    → leb q.size (q.enqueue_num - q.dequeue_num) ≡ false
    → IsRing (entered q v)
entered-IsRing q v w free = record {
  power = w.power;
  ordered = omega (arith, w.ordered);
  bounded = ground (arith, w.bounded, w.ordered);
}

-- An `Enqueue` on a full ring waits; otherwise it gives the next number, the value comes last
-- behind the others, and the ring stays well formed.
pub enqueue_lem :
    {A : Type 0} (q : Queue A) (v : A)
    → IsRing q
    → ((length (contents q) ≡ q.size) × (enqueue q v ≡ none))
      ⊎ ((length (contents q) < q.size)
          × ((t : Queue A) × (enqueue q v ≡ some (q.enqueue_num + 1, t))
              × IsRing t
              × (contents t ≡ contents q ++ v ∷ [])))
enqueue_lem q v w = elim (Bool-cases (leb q.size (q.enqueue_num - q.dequeue_num))) [
  | inl full ↦ inl (length-contents q ∙ full_count q w full, enqueue-full q v full)
  | inr free ↦ inr (
    subst (λ n. n < q.size) (sym (length-contents q)) (ground arith),
    (
      entered q v,
      enqueue-free q v free,
      entered-IsRing q v w free,
      entered-contents q v w (ground arith),
    ),
  )
]

pub none_waits :
    {A : Type 0} (q : Queue A)
    → leb q.enqueue_num q.dequeue_num ≡ true
    → q.enqueue_num - q.dequeue_num ≡ 0
none_waits q h = ground arith

pub one_less :
    {A : Type 0} (q : Queue A)
    → leb q.enqueue_num q.dequeue_num ≡ false
    → q.enqueue_num - q.dequeue_num ≡ suc (q.enqueue_num - (q.dequeue_num + 1))
one_less q h = ground arith

pub dequeue-empty :
    {A : Type 0} (q : Queue A)
    → leb q.enqueue_num q.dequeue_num ≡ true
    → (q.is_enqueue_done ≡ true) ⊎ (q.is_enqueue_done ≡ false)
    → (q.is_enqueue_done ≡ false) × (dequeue q ≡ none)
      ⊎ (q.is_enqueue_done ≡ true)
        × (dequeue q ≡ some (0, none, record q { is_dequeue_done = true }))
unfolding dequeue
dequeue-empty q h (inl d) = inr (d, ground arith)
dequeue-empty q h (inr d) = inl (d, ground arith)

pub dequeue-some :
    {A : Type 0} (q : Queue A)
    → leb q.enqueue_num q.dequeue_num ≡ false
    → dequeue q
      ≡ some (
        q.dequeue_num + 1,
        some (q.cells (slot q q.dequeue_num)),
        record q { dequeue_num = q.dequeue_num + 1 },
      )
unfolding dequeue
dequeue-some q h = ground arith

-- A `Dequeue` gives the oldest value and leaves the others; on an empty ring it gives 0 if
-- `set_is_enqueue_done` was called, and waits otherwise.
pub dequeue_lem :
    {A : Type 0} (q : Queue A)
    → IsRing q
    → ((contents q ≡ [])
        × ((q.is_enqueue_done ≡ false) × (dequeue q ≡ none)
            ⊎ (q.is_enqueue_done ≡ true)
              × (dequeue q ≡ some (0, none, record q { is_dequeue_done = true }))))
      ⊎ ((v : A) × (t : Queue A) × (dequeue q ≡ some (q.dequeue_num + 1, some v, t))
          × IsRing t
          × (contents q ≡ v ∷ contents t))
dequeue_lem q w = elim (Bool-cases (leb q.enqueue_num q.dequeue_num)) [
  | inl none_left ↦ inl (
    ap (λ n. values q.cells (q.size - 1) q.dequeue_num n) (none_waits q none_left),
    dequeue-empty q none_left (Bool-cases q.is_enqueue_done),
  )
  | inr some_left ↦ inr (
    q.cells (slot q q.dequeue_num),
    record q { dequeue_num = q.dequeue_num + 1 },
    dequeue-some q some_left,
    record { power = w.power; ordered = ground arith; bounded = omega (arith, w.bounded) },
    ap (λ n. values q.cells (q.size - 1) q.dequeue_num n) (one_less q some_left),
  )
]
