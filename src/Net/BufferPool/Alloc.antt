-- ===== src/Net/BufferPool/Alloc.antt =====
-- What the pools of engine/net/buffer_pool.h hand out, and what they take back.
use mathlib.Core.List.{Mem, mem-cons, mem-cons_self, mem-cons_of_mem, Perm, Permᴰ}
use mathlib.Core.List.Perm
use mathlib.Core.Logic.Or
use mathlib.Core.Logic.{∥∥₁_elim}
use native.Mathlib.Nat.{ℕ_set}
use cxxprogram.Prelude.{
  Bool-cases, List, Option-cases, [], ap, arith, inl, inr, length, length-replicate, none, refl,
  some, subst, suc, zero, ℕ, ◌*◌, ◌<◌, ◌==◌, ◌↔◌, ◌∙◌, ◌≡◌, ◌≤◌, ◌⊎◌,
}
use cxxprogram.Prelude.Int.{ℤ, pos}
use cxxprogram.Net.Queue.{ConcurrentQueue}
use cxxprogram.Net.BufferPool.{
  DataBuffer, new, release, size_class, Pool, Manager, set_pool, pool_alloc, pool_release, alloc,
  give_back,
}

-- The pool that serves a size has buffers that are larger than it, of 64 bytes or at most twice
-- that size, and of at most 65536.
pub size_class-fits :
    (n : ℕ) {c : ℕ} → size_class (pos n) ≡ some c → (n < c) × ((c ≡ 64) ⊎ (c ≤ 2 * n)) × (c ≤ 65536)
unfolding size_class
size_class-fits n h = ground arith

-- No pool serves a size from 65536 on, and every smaller one is served.
pub size_class-none_iff : (n : ℕ) → (size_class (pos n) ≡ none) ↔ (65536 ≤ n)
unfolding size_class
size_class-none_iff n = (λ h. ground arith, λ h. ground arith)

pub record IsClean (c : ℕ) (b : DataBuffer) : Type 0 where
  pub allocated : b.alloc_size ≡ c
  pub backed : length b.buffer ≡ c
  pub no_length : b.total_length ≡ 0
  pub no_header : b.header_length ≡ 0

new-IsClean : (fill c : ℕ) → IsClean c (new fill c)
unfolding new
new-IsClean fill c = record {
  allocated = refl;
  backed = length-replicate c fill;
  no_length = refl;
  no_header = refl;
}

IsClean-prop : (c : ℕ) (b : DataBuffer) → IsProp (IsClean c b)
IsClean-prop c b = hlevel

-- What is given back is reset, whatever it carried.
release-IsClean :
    (c : ℕ) (b : DataBuffer) → b.alloc_size ≡ c → length b.buffer ≡ c → IsClean c (release b)
unfolding release
release-IsClean c b h k = record { allocated = h; backed = k; no_length = refl; no_header = refl }

-- A rearrangement keeps the length.
length-permᴰ : {A : Type 0} {xs ys : List A} → Permᴰ xs ys → length xs ≡ length ys
length-permᴰ Permᴰ.nil = refl
length-permᴰ (Permᴰ.cons e p) = ap suc (length-permᴰ p)
length-permᴰ (Permᴰ.swap {l = l} e f) = refl
length-permᴰ (Permᴰ.trans p q) = length-permᴰ p ∙ length-permᴰ q

pub length-perm : {A : Type 0} (xs ys : List A) → Perm xs ys → length xs ≡ length ys
length-perm xs ys p = ∥∥₁_elim p (ℕ_set _ _) length-permᴰ

module _ (Q : ConcurrentQueue DataBuffer) where
  -- Every buffer that waits in the pool of a size has that size and is reset.
  abbrev pub IsPooled : Manager Q → Type 0
  IsPooled m = (c : ℕ) (b : DataBuffer) → Mem b (Q.items (m c)) → IsClean c b

  pool_alloc-IsClean :
      (fill c : ℕ) (q : Pool Q)
      → ((b : DataBuffer) → Mem b (Q.items q) → IsClean c b)
      → IsClean c (pool_alloc Q fill c q).0
        × ((b : DataBuffer) → Mem b (Q.items (pool_alloc Q fill c q).1) → IsClean c b)
  unfolding pool_alloc
  pool_alloc-IsClean fill c q h = elim (Option-cases (Q.try_dequeue q)) [
    | inl e ↦ rw (e, pool_alloc) (new-IsClean fill c, h)
    | inr ((b, r), e) ↦
        let p = Q.items-try_dequeue b q r e in
        rw (e, pool_alloc)
          (
            h b ((Perm.mem_iff p).1 mem-cons_self),
            λ x m. h x ((Perm.mem_iff p).1 (mem-cons_of_mem b m)),
          )
  ]

  set_pool-IsPooled :
      (m : Manager Q) (c : ℕ) (q : Pool Q)
      → IsPooled m
      → ((b : DataBuffer) → Mem b (Q.items q) → IsClean c b)
      → IsPooled (set_pool Q m c q)
  set_pool-IsPooled m c q v h d b k = elim (Bool-cases (c == d)) [
    | inl e ↦ let same : c ≡ d = ground arith in subst (λ n. IsClean n b) same (h b (rw e at k))
    | inr e ↦ v d b (rw e at k)
  ]

  -- A size that a pool serves gets a buffer of that pool's size, with no contents and no header,
  -- whether it is new or recycled, and the pools stay as they should be.
  pub alloc_any-IsClean :
      (fill : ℕ) (size : ℤ) (m : Manager Q) {c : ℕ}
      → IsPooled m
      → size_class size ≡ some c
      → (b : DataBuffer) × (m' : Manager Q) × (alloc Q fill m size ≡ some (b, m'))
        × IsClean c b
        × IsPooled m'
  unfolding alloc
  alloc_any-IsClean fill size m {c} v e =
      let r = pool_alloc-IsClean fill c (m c) (v c) in
      (
        (pool_alloc Q fill c (m c)).0,
        set_pool Q m c (pool_alloc Q fill c (m c)).1,
        rw (e, alloc),
        r.0,
        set_pool-IsPooled m c _ v r.1,
      )

  pub alloc-IsClean :
      (fill n : ℕ) (m : Manager Q) {c : ℕ}
      → IsPooled m
      → size_class (pos n) ≡ some c
      → (b : DataBuffer) × (m' : Manager Q) × (alloc Q fill m (pos n) ≡ some (b, m'))
        × IsClean c b
        × IsPooled m'
  alloc-IsClean fill n m v e = alloc_any-IsClean fill (pos n) m v e

  -- A buffer that comes back to the pool of its size is reset, so that every buffer that waits in a
  -- pool still has the pool's size and no contents.
  pub give_back-IsPooled :
      (m : Manager Q) (c : ℕ) (b : DataBuffer)
      → IsPooled m
      → b.alloc_size ≡ c
      → length b.buffer ≡ c
      → IsPooled (give_back Q c b m)
  unfolding give_back
  give_back-IsPooled m c b v h k = set_pool-IsPooled m c _ v λ x i.
      Or.elim (IsClean-prop c x)
        (mem-cons.0 ((Perm.mem_iff (Q.items-enqueue (release b) (m c))).0 i))
        (λ e. rw e (release-IsClean c b h k)) (λ j. v c x j)

  -- With one round for each buffer and one to see the end, `release` empties the pool.
  pub pool_release_lem :
      (fuel : ℕ) (q : Pool Q)
      → length (Q.items q) < fuel
      → (q' : Pool Q) × (pool_release Q fuel q ≡ some q') × (Q.items q' ≡ [])
  unfolding pool_release
  pool_release_lem zero q h = absurd (omega arith)
  pool_release_lem (suc fuel) q h = elim (Option-cases (Q.try_dequeue q)) [
    | inl e ↦ (q, rw (e, pool_release), Q.items-try_dequeue_none q e)
    | inr ((b, r), e) ↦
        let n = length-perm _ _ (Q.items-try_dequeue b q r e) in
        let (q', run, gone) = pool_release_lem fuel r (omega arith) in
        (q', rw (e, pool_release) run, gone)
  ]
