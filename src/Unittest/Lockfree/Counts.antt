-- ===== src/Unittest/Lockfree/Counts.antt =====
-- What comes out of the queue of `co_lock_free` (unittest/t_utils/t_lockfree.cpp).
use mathlib.Core.List.{Perm, Permᴰ}
use mathlib.Core.Logic.{∥∥₁_elim}
use native.Mathlib.Nat.{ℕ_set}
use cxxprogram.Prelude.{
  ==_iff, Bool-cases, List, Option-cases, [], ap, arith, false, get_elem?, get_or, if◌then◌else◌,
  inl, inr, leb, leb→le, length, length-set, ltb, refl, replicate, set, some, subst, suc, sym, true,
  zero, ℕ, ◌%◌, ◌&&◌, ◌*◌, ◌+◌, ◌/◌, ◌<◌, ◌==◌, ◌∙◌, ◌∷◌, ◌≡◌, ◌≤◌,
}
use cxxprogram.Net.Queue.{ConcurrentQueue}
use cxxprogram.Net.BufferPool.Alloc.{length-perm}
use cxxprogram.Unittest.Lockfree.{
  Progress, advance, increment, asserts, State, Step, enqueues, Reach, here, next, begin, collect,
  finish,
}

abbrev pub count : ℕ → List ℕ → ℕ
count n [] = 0
count n (x ∷ xs) = if x == n then suc (count n xs) else count n xs

count-permᴰ : (n : ℕ) {xs ys : List ℕ} → Permᴰ xs ys → count n xs ≡ count n ys
count-permᴰ n Permᴰ.nil = refl
count-permᴰ n (Permᴰ.cons e p) = ground (arith, e, count-permᴰ n p)
count-permᴰ n (Permᴰ.swap e f) = ground (arith, e, f)
count-permᴰ n (Permᴰ.trans p q) = count-permᴰ n p ∙ count-permᴰ n q

count-perm : (n : ℕ) (xs ys : List ℕ) → Perm xs ys → count n xs ≡ count n ys
count-perm n xs ys p = ∥∥₁_elim p (ℕ_set _ _) (count-permᴰ n)

-- How often the producers have put in `n`.
abbrev put_in : Progress → ℕ → ℕ
put_in p n = if ltb n 100 && ltb (n % 10) (p (n / 10)) then 1 else 0

-- The one producer that can put in `n` does so when it is there in its loop.
own_turn :
    (i a n : ℕ)
    → i < 10
    → a < 10
    → i ≡ n / 10
    → (if ltb n 100 && ltb (n % 10) (suc a) then 1 else 0) ≡ (
        if (i * 10 + a) == n
        then suc (if ltb n 100 && ltb (n % 10) a then 1 else 0)
        else (if ltb n 100 && ltb (n % 10) a then 1 else 0))
own_turn i a n h k e = ground arith

other_turn :
    (i a n c : ℕ) → a < 10 → (i == n / 10) ≡ false → (if (i * 10 + a) == n then suc c else c) ≡ c
other_turn i a n c k e = ground arith

put_in-advance :
    (p : Progress) (i n : ℕ)
    → i < 10
    → p i < 10
    → put_in (advance p i) n ≡ (if (i * 10 + p i) == n then suc (put_in p n) else put_in p n)
put_in-advance p i n h k = elim (Bool-cases (i == n / 10)) [
  | inl e ↦
      let own : i ≡ n / 10 = (==_iff i (n / 10)).0 e in
      let same : advance p i (n / 10) ≡ suc (p i) =
        ap (λ b. if b then suc (p (n / 10)) else p (n / 10)) e ∙ ap (λ j. suc (p j)) (sym own) in
      ap (λ a. if ltb n 100 && ltb (n % 10) a then 1 else 0) same
      ∙ own_turn i (p i) n h k own
      ∙ ap
          (λ j.
            if (i * 10 + p i) == n
            then suc (if ltb n 100 && ltb (n % 10) (p j) then 1 else 0)
            else (if ltb n 100 && ltb (n % 10) (p j) then 1 else 0))
          own
  | inr e ↦
      ap
        (λ b.
          if ltb n 100 && ltb (n % 10) (if b then suc (p (n / 10)) else p (n / 10)) then 1 else 0)
        e
      ∙ sym (other_turn i (p i) n (put_in p n) k e)
]

get_elem?-get_or : (d : List ℕ) (i : ℕ) → i < length d → get_elem? d i ≡ some (get_or d i 0)
get_elem?-get_or [] i h = absurd (omega arith)
get_elem?-get_or (x ∷ d) zero h = refl
get_elem?-get_or (x ∷ d) (suc i) h = get_elem?-get_or d i (omega arith)

get_or-set :
    (d : List ℕ) (i v n : ℕ)
    → i < length d
    → get_or (set d i v) n 0 ≡ (if i == n then v else get_or d n 0)
get_or-set [] i v n h = absurd (omega arith)
get_or-set (x ∷ d) zero v zero h = refl
get_or-set (x ∷ d) zero v (suc n) h = ground arith
get_or-set (x ∷ d) (suc i) v zero h = ground arith
get_or-set (x ∷ d) (suc i) v (suc n) h = get_or-set d i v n (omega arith) ∙ ground arith

added :
    (d : List ℕ) (i n : ℕ)
    → (if i == n then suc (get_or d i 0) else get_or d n 0)
      ≡ get_or d n 0 + (if i == n then 1 else 0)
added d i n = elim (Bool-cases (i == n)) [
  | inl e ↦ let same = ap (λ j. get_or d j 0) ((==_iff i n).0 e) in ground (arith, same)
  | inr e ↦ ground arith
]

increment_lem :
    (d : List ℕ) (item : ℕ)
    → item < length d
    → (d' : List ℕ) × (increment d item ≡ some d')
      × (length d' ≡ length d)
      × ((n : ℕ) → get_or d' n 0 ≡ get_or d n 0 + count n (item ∷ []))
unfolding increment
increment_lem d item h = (
  set d item (suc (get_or d item 0)),
  rw (get_elem?-get_or d item h, increment) refl,
  length-set d item (suc (get_or d item 0)),
  λ n. get_or-set d item (suc (get_or d item 0)) n h ∙ added d item n,
)

asserts_lem :
    (k i : ℕ) (d : List ℕ)
    → i + k ≡ length d
    → ((n : ℕ) → n < length d → get_or d n 0 ≡ 1)
    → asserts k i d ≡ some true
unfolding asserts
asserts_lem zero i d e h = refl
asserts_lem (suc k) i d e h =
    rw (get_elem?-get_or d i (omega arith), h i (omega arith), asserts)
      (asserts_lem k (i + 1) d (omega arith) h)

held : (item : ℕ) (xs : List ℕ) (len : ℕ) → (len ≤ item → count item (item ∷ xs) ≡ 0) → item < len
held item xs len h = elim (Bool-cases (leb len item)) [
  | inl e ↦ let none_in = h (leb→le len item e) in absurd (ground arith)
  | inr e ↦ ground arith
]

left : (n item : ℕ) (xs : List ℕ) → count n (item ∷ xs) ≡ 0 → count n xs ≡ 0
left n item xs h = ground arith

both : (n item c : ℕ) (xs : List ℕ) → c + count n (item ∷ []) + count n xs ≡ c + count n (item ∷ xs)
both n item c xs = ground arith

get_or-zeros : (k n : ℕ) → get_or {A = ℕ} (replicate k 0) n 0 ≡ 0
get_or-zeros zero n = refl
get_or-zeros (suc k) zero = refl
get_or-zeros (suc k) (suc n) = get_or-zeros k n

-- When each producer is done, the numbers below 100 have been put in, and no others.
all_in : (p : Progress) (n : ℕ) → ((i : ℕ) → i < 10 → p i ≡ 10) → n < 100 → put_in p n ≡ 1
all_in p n joined h = let ten = joined (n / 10) (omega arith) in ground (arith, ten)

none_over : (p : Progress) (n : ℕ) → 100 ≤ n → put_in p n ≡ 0
none_over p n h = ground arith

empty : (n : ℕ) → 0 ≡ put_in (λ i. 0) n
empty n = ground arith

module _ (Q : ConcurrentQueue ℕ) where
  Step-count :
      {s t : State Q} (n : ℕ)
      → Step Q s t
      → count n (Q.items s.q) ≡ put_in s.progress n
      → count n (Q.items t.q) ≡ put_in t.progress n
  Step-count {s = s} n (enqueues i h k) e =
      count-perm n _ _ (Q.items-enqueue (i * 10 + s.progress i) s.q)
      ∙ ap (λ c. if (i * 10 + s.progress i) == n then suc c else c) e
      ∙ sym (put_in-advance s.progress i n h k)

  Reach-count :
      {t : State Q} (n : ℕ) → Reach Q (begin Q) t → count n (Q.items t.q) ≡ put_in t.progress n
  Reach-count n here = ap (count n) Q.items-empty ∙ empty n
  Reach-count n (next r st) = Step-count n st (Reach-count n r)

  collect_lem :
      (fuel : ℕ) (q : Q.Carrier) (d : List ℕ)
      → length (Q.items q) < fuel
      → ((n : ℕ) → length d ≤ n → count n (Q.items q) ≡ 0)
      → (d' : List ℕ) × (q' : Q.Carrier) × (collect Q fuel q d ≡ some (d', q'))
        × (length d' ≡ length d)
        × (Q.items q' ≡ [])
        × ((n : ℕ) → get_or d' n 0 ≡ get_or d n 0 + count n (Q.items q))
  unfolding collect
  collect_lem zero q d h k = absurd (omega arith)
  collect_lem (suc fuel) q d h k = elim (Option-cases (Q.try_dequeue q)) [
    | inl e ↦
        let gone = Q.items-try_dequeue_none q e in
        (d, q, rw (e, collect) refl, refl, gone, λ n. omega (arith, ap (count n) gone))
    | inr ((item, r), e) ↦
        let p = Q.items-try_dequeue item q r e in
        let all : (n : ℕ) → count n (Q.items q) ≡ count n (item ∷ Q.items r) =
          λ n. count-perm n _ _ p in
        let (d₁, one, size, adds) =
          increment_lem d item
            (held item (Q.items r) (length d) (λ m. sym (all item) ∙ k item m)) in
        let (d₂, r₂, run, size₂, gone, adds₂) =
          collect_lem fuel r d₁ (omega (arith, length-perm _ _ p))
            (λ n m. left n item (Q.items r) (sym (all n) ∙ k n (omega (arith, size)))) in
        (
          d₂,
          r₂,
          rw (e, collect, one) run,
          size₂ ∙ size,
          gone,
          λ n.
              adds₂ n
              ∙ ap (λ c. c + count n (Q.items r)) (adds n)
              ∙ both n item (get_or d n 0) (Q.items r)
              ∙ ap (λ c. get_or d n 0 + c) (sym (all n)),
        )
  ]

  -- However the ten producers take turns, whatever the queue that keeps its promises: when each has
  -- ended its loop, no access is outside the array, every assertion of the count holds, and the count
  -- ends, with more fuel than the queue has items.
  pub finish_lem :
      {t : State Q} (fuel : ℕ)
      → Reach Q (begin Q) t
      → ((i : ℕ) → i < 10 → t.progress i ≡ 10)
      → length (Q.items t.q) < fuel
      → finish Q fuel t.q ≡ some true
  unfolding finish
  finish_lem {t = t} fuel r joined h =
      let (d, q, run, size, gone, adds) =
        collect_lem fuel t.q (replicate 100 0) h
          (λ n k. Reach-count n r ∙ none_over t.progress n k) in
      let once : (n : ℕ) → n < 100 → count n (Q.items t.q) ≡ 1 =
        λ n k. Reach-count n r ∙ all_in t.progress n joined k in
      let (d₂, q₂, run₂, size₂, _, adds₂) =
        collect_lem fuel q d (subst (λ l. length l < fuel) (sym gone) (omega arith))
          (λ n k. ap (count n) gone) in
      rw (run, run₂, finish)
        (asserts_lem 100 0 d₂ (sym (size₂ ∙ size)) (λ n k. omega (
          arith,
          adds₂ n,
          adds n,
          ap (count n) gone,
          get_or-zeros 100 n,
          once n (omega (arith, k, size, size₂)),
        )))
