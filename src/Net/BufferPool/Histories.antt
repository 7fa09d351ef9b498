-- ===== src/Net/BufferPool/Histories.antt =====
-- The pools of engine/net/buffer_pool.h at work: buffers are handed out, filled by their holders and
-- given back, in any order.
use mathlib.Core.List.{Mem, not-mem-nil}
use cxxprogram.Prelude.{
  refl, sym, List, Option, Option-cases, [], arith, inl, inr, length, none, some, subst, ℕ, ◌*◌,
  ◌++◌, ◌<◌, ◌∙◌, ◌∷◌, ◌≡◌, ◌≤◌, ◌⊎◌,
}
use cxxprogram.Prelude.Int.{ℤ, pos}
use cxxprogram.Net.Queue.{ConcurrentQueue}
use cxxprogram.Net.BufferPool.{DataBuffer, Manager, alloc, give_back, size_class}
use cxxprogram.Net.BufferPool.Alloc.{
  IsClean, IsPooled, alloc_any-IsClean, give_back-IsPooled, size_class-fits, size_class-none_iff,
}

-- The buffers that are handed out have the memory that they say.
abbrev AreBacked : List DataBuffer → Type 0
AreBacked [] = Unit {0}
AreBacked (b ∷ bs) = (length b.buffer ≡ b.alloc_size) × AreBacked bs

AreBacked-middle :
    (xs ys : List DataBuffer) (b : DataBuffer)
    → AreBacked (xs ++ b ∷ ys)
    → (length b.buffer ≡ b.alloc_size)
      × AreBacked (xs ++ ys)
      × ((c : DataBuffer) → length c.buffer ≡ c.alloc_size → AreBacked (xs ++ c ∷ ys))
AreBacked-middle [] ys b (h, hs) = (h, hs, λ c k. (k, hs))
AreBacked-middle (x ∷ xs) ys b (h, hs) =
    let (k, others, put) = AreBacked-middle xs ys b hs in (k, (h, others), λ c l. (h, put c l))

module _ (Q : ConcurrentQueue DataBuffer) (fill : ℕ) where
  -- The pools, and the buffers that are handed out.
  pub record Store : Type 0 where
    pub pools : Manager Q
    pub held : List DataBuffer

  abbrev pub no_buffers : Store
  no_buffers = record { pools = λ c. Q.empty; held = [] }

  pub data Step (s : Store) : Store → Type 0 where
    allocs :
        (size : ℤ) (b : DataBuffer) (m : Manager Q)
        → alloc Q fill s.pools size ≡ some (b, m)
        → Step s (record { pools = m; held = b ∷ s.held })
    -- A holder writes to its buffer: the two lengths and the bytes, of which there are as many.
    changes :
        (before after : List DataBuffer) (b c : DataBuffer)
        → s.held ≡ before ++ b ∷ after
        → c.alloc_size ≡ b.alloc_size
        → length c.buffer ≡ length b.buffer
        → Step s (record { pools = s.pools; held = before ++ c ∷ after })
    -- The last holder lets go: the deleter gives the buffer back to the pool of its size.
    returns :
        (before after : List DataBuffer) (b : DataBuffer)
        → s.held ≡ before ++ b ∷ after
        → Step s (record { pools = give_back Q b.alloc_size b s.pools; held = before ++ after })

  pub data Reach : Store → Type 0 where
    begun : Reach no_buffers
    next : {s t : Store} → Reach s → Step s t → Reach t

  record IsSound (s : Store) : Type 0 where
    pooled : IsPooled Q s.pools
    backed : AreBacked s.held

  no_buffers-IsSound : IsSound no_buffers
  no_buffers-IsSound = record {
    pooled = λ c b m. absurd (not-mem-nil (subst (Mem b) Q.items-empty m));
    backed = tt;
  }

  alloc-none : (m : Manager Q) (size : ℤ) → size_class size ≡ none → alloc Q fill m size ≡ none
  unfolding alloc
  alloc-none m size e = rw (e, alloc) refl

  allocs-IsSound :
      (s : Store) (size : ℤ) (b : DataBuffer) (m : Manager Q)
      → IsSound s
      → alloc Q fill s.pools size ≡ some (b, m)
      → IsSound (record { pools = m; held = b ∷ s.held })
  allocs-IsSound s size b m v e = elim (Option-cases (size_class size)) [
    | inl n ↦ absurd (none-some (sym (alloc-none s.pools size n) ∙ e))
    | inr (c, k) ↦
        let (b', m', run, clean, pooled) = alloc_any-IsClean Q fill size s.pools v.pooled k in
        subst
          (λ (o : Option (DataBuffer × Manager Q)). elim o [
            | none ↦ Unit {0}
            | some (b, m) ↦ IsSound (record { pools = m; held = b ∷ s.held })
          ])
          (sym run ∙ e)
          (record { pooled = pooled; backed = (clean.backed ∙ sym clean.allocated, v.backed) })
  ]
    where
      none-some : ◌≡◌ {A = Option (DataBuffer × Manager Q)} none (some (b, m)) → ⊥
      none-some h = cc

  Step-IsSound : {s t : Store} → Step s t → IsSound s → IsSound t
  Step-IsSound {s} (allocs size b m e) v = allocs-IsSound s size b m v e
  Step-IsSound (changes before after b c e h k) v =
      let (own, _, put) = AreBacked-middle before after b (subst AreBacked e v.backed) in
      record { pooled = v.pooled; backed = put c (k ∙ own ∙ sym h) }
  Step-IsSound {s} (returns before after b e) v =
      let (own, others, _) = AreBacked-middle before after b (subst AreBacked e v.backed) in
      record {
        pooled = give_back-IsPooled Q s.pools b.alloc_size b v.pooled refl own;
        backed = others;
      }

  Reach-IsSound : {s : Store} → Reach s → IsSound s
  Reach-IsSound begun = no_buffers-IsSound
  Reach-IsSound (next r st) = Step-IsSound st (Reach-IsSound r)

  -- After any history of the pools, which begin empty, in which buffers are handed out, written to by
  -- their holders and given back: a size below 65536 gets a buffer of more bytes, of 64 or at most
  -- twice that size, and of at most 65536, with no contents and no header, whether it is new or was
  -- given back; and a size from 65536 on gets none.
  pub Reach-alloc :
      {s : Store} (n : ℕ)
      → Reach s
      → ((n < 65536)
          × ((c : ℕ) × (b : DataBuffer) × (m : Manager Q) × (alloc Q fill s.pools (pos n)
                ≡ some (b, m))
              × (n < c)
              × ((c ≡ 64) ⊎ (c ≤ 2 * n))
              × (c ≤ 65536)
              × IsClean c b))
        ⊎ ((65536 ≤ n) × (alloc Q fill s.pools (pos n) ≡ none))
  Reach-alloc {s} n r = elim (Option-cases (size_class (pos n))) [
    | inl e ↦ inr ((size_class-none_iff n).0 e, alloc-none s.pools (pos n) e)
    | inr (c, e) ↦
        let (more, near, most) = size_class-fits n e in
        let (b, m, run, clean, _) =
          alloc_any-IsClean Q fill (pos n) s.pools (Reach-IsSound r).pooled e in
        inl (omega (arith, more, most), (c, b, m, run, more, near, most, clean))
  ]
