-- ===== src/Net/Queue.antt =====
-- `moodycamel::ConcurrentQueue`, which is not part of the repository: the operations that the code
-- calls, and what its documentation promises of them. Items of several producers come out in an
-- order that is not fixed, so these promises are about the items; that the items of one producer
-- come out in the order in which it put them in is a promise of its own.
use mathlib.Core.List.{Perm}
use mathlib.Core.List.Perm
use cxxprogram.Prelude.{
  Bool, Bool-cases, List, Option, [], ap, arith, if◌then◌else◌, inl, inr, none, refl, some, ℕ, ◌++◌,
  ◌∷◌, ◌≡◌,
}

pub record ConcurrentQueue (A : Type 0) : Type 1 where
  pub Carrier : Type 0
  pub empty : Carrier
  pub enqueue : A → Carrier → Carrier
  pub try_dequeue : Carrier → Option (A × Carrier)
  pub items : Carrier → List A
  pub items-empty : items empty ≡ []
  pub items-enqueue : (a : A) (q : Carrier) → Perm (items (enqueue a q)) (a ∷ items q)
  pub items-try_dequeue :
      (a : A) (q r : Carrier) → try_dequeue q ≡ some (a, r) → Perm (items q) (a ∷ items r)
  pub items-try_dequeue_none : (q : Carrier) → try_dequeue q ≡ none → items q ≡ []

-- The items that pass a test.
abbrev pub sift : {A : Type 0} → (A → Bool) → List A → List A
sift t [] = []
sift t (x ∷ xs) = if t x then x ∷ sift t xs else sift t xs

pub sift-append :
    {A : Type 0} (t : A → Bool) (xs ys : List A) → sift t (xs ++ ys) ≡ sift t xs ++ sift t ys
sift-append t [] ys = refl
sift-append t (x ∷ xs) ys = elim (Bool-cases (t x)) [
  | inl e ↦ rw e (ap (λ l. x ∷ l) (sift-append t xs ys))
  | inr e ↦ rw e (sift-append t xs ys)
]

-- Where `from i` tells the items that one producer `i` puts in: it puts one in behind those that it
-- has put in before, and of these the first comes out first.
pub record KeepsOrder {A : Type 0} (Q : ConcurrentQueue A) (from : ℕ → A → Bool) : Type 0 where
  pub last_in :
      (i : ℕ) (a : A) (q : Q.Carrier)
      → sift (from i) (Q.items (Q.enqueue a q))
        ≡ sift (from i) (Q.items q) ++ sift (from i) (a ∷ [])
  pub first_out :
      (i : ℕ) (a : A) (q r : Q.Carrier)
      → Q.try_dequeue q ≡ some (a, r)
      → sift (from i) (Q.items q) ≡ sift (from i) (a ∷ []) ++ sift (from i) (Q.items r)

-- A queue that keeps all the promises: a list, newest last.
abbrev pub list_try_dequeue {ℓ} : {A : Type ℓ} → List A → Option (A × List A)
list_try_dequeue [] = none
list_try_dequeue (x ∷ xs) = some (x, xs)

pub list_perm :
    {A : Type 0} (a : A) (q r : List A) → list_try_dequeue q ≡ some (a, r) → Perm q (a ∷ r)
list_perm a [] r e = cc
list_perm a (x ∷ xs) r e =
    let h : x ≡ a = ground arith in let k : xs ≡ r = ground arith in rw (h, k) (Perm.refl (a ∷ r))

pub list_none : {A : Type 0} (q : List A) → list_try_dequeue q ≡ none → q ≡ []
list_none [] e = refl
list_none (x ∷ xs) e = cc

pub enqueue_perm : {A : Type 0} (a : A) (q : List A) → Perm (q ++ a ∷ []) (a ∷ q)
enqueue_perm a [] = Perm.refl _
enqueue_perm a (x ∷ q) = Perm.trans (Perm.cons x (enqueue_perm a q)) (Perm.swap a x q)

abbrev pub list_queue : (A : Type 0) → ConcurrentQueue A
list_queue A = record {
  Carrier = List A;
  empty = [];
  enqueue = λ a q. q ++ a ∷ [];
  try_dequeue = list_try_dequeue;
  items = λ q. q;
  items-empty = refl;
  items-enqueue = enqueue_perm;
  items-try_dequeue = list_perm;
  items-try_dequeue_none = list_none;
}

list_first :
    {A : Type 0} (t : A → Bool) (a : A) (q r : List A)
    → list_try_dequeue q ≡ some (a, r)
    → sift t q ≡ sift t (a ∷ []) ++ sift t r
list_first t a [] r e = cc
list_first t a (x ∷ xs) r e =
    let h : x ≡ a = ground arith in
    let k : xs ≡ r = ground arith in rw (h, k) (sift-append t (a ∷ []) r)

pub list_queue-KeepsOrder : {A : Type 0} (from : ℕ → A → Bool) → KeepsOrder (list_queue A) from
list_queue-KeepsOrder from = record {
  last_in = λ i a q. sift-append (from i) q (a ∷ []);
  first_out = λ i a q r e. list_first (from i) a q r e;
}
