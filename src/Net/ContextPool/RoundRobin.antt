-- ===== src/Net/ContextPool/RoundRobin.antt =====
-- `context_pool::next` (engine/net/context_pool.cpp), called again and again.
use native.Mathlib.Nat.{mod-add-mod, mod-eq_of_lt, mod-eq-sub-mod, add-mod_right}
use native.Mathlib.Decide.{dec_lt}
use cxxprogram.Prelude.{
  List, Option, [], ap, arith, get_elem?, if◌then◌else◌, leb, refl, some, suc, sym, zero, ℕ, ◌%◌,
  ◌*◌, ◌+◌, ◌-◌, ◌<◌, ◌>>=◌, ◌^◌, ◌∙◌, ◌∷◌, ◌≡◌, ◌≢◌, ◌≤◌,
}
use cxxprogram.Net.ContextPool.{ContextPool, contexts_from, new, next, cpu_core_num, int64_max}

-- A pool that has not been stopped: it has a context for each index.
pub record IsRunning (p : ContextPool) : Type 0 where
  pub all : p.contexts ≡ contexts_from 0 p.thread_count
  pub some_context : 0 < p.thread_count
  pub in_range : p.thread_context_index < int64_max

get_elem?-contexts_from :
    (start n i : ℕ) → i < n → get_elem? (contexts_from start n) i ≡ some (start + i)
get_elem?-contexts_from start zero i h = absurd (omega arith)
get_elem?-contexts_from start (suc n) zero h = ap some (omega arith)
get_elem?-contexts_from start (suc n) (suc i) h =
    get_elem?-contexts_from (suc start) n i (omega arith) ∙ ap some (omega arith)

-- On a machine that reports its cores, or where the count asked for is in bounds, a new pool runs.
pub new-IsRunning :
    (hardware n : ℕ)
    → hardware < 2 ^ 31
    → IsRunning (new hardware n) × ((new hardware n).thread_count ≤ hardware * 2 + 1)
unfolding new cpu_core_num
new-IsRunning hardware n h =
    (record { all = refl; some_context = ground arith; in_range = omega arith }, ground arith)

-- `next` never fails on a running pool. It hands out the context whose number is the next count
-- modulo the number of contexts, and the count never overflows.
pub next_lem :
    (p : ContextPool)
    → IsRunning p
    → (q : ContextPool) × (next p ≡ some ((p.thread_context_index + 1) % p.thread_count, q))
      × IsRunning q
      × (q.thread_count ≡ p.thread_count)
      × (q.thread_context_index
          ≡ (if leb int64_max (p.thread_context_index + 1) then 0 else p.thread_context_index + 1))
unfolding next
next_lem p v = (
  record p { thread_context_index = kept },
  rw (v.all, get_elem?-contexts_from 0 p.thread_count (bumped % p.thread_count) (grind arith))
      (ground arith),
  record { all = v.all; some_context = v.some_context; in_range = ground arith },
  refl,
  refl,
)
  where
    bumped : ℕ
    bumped = p.thread_context_index + 1

    kept : ℕ
    kept = if leb int64_max bumped then 0 else bumped

-- The contexts that the next `k` calls hand out.
pub next_many : ℕ → ContextPool → Option (List ℕ × ContextPool)
next_many zero p = some ([], p)
next_many (suc k) p = do (c, q) ← next p; (cs, r) ← next_many k q; some (c ∷ cs, r)

-- The numbers after `i` in turn, modulo `n`.
abbrev pub turns : ℕ → ℕ → ℕ → List ℕ
turns n i zero = []
turns n i (suc k) = ((i + 1) % n) ∷ turns n (i + 1) k

get_elem?-turns : (n i k j : ℕ) → j < k → get_elem? (turns n i k) j ≡ some ((i + 1 + j) % n)
get_elem?-turns n i zero j h = absurd (omega arith)
get_elem?-turns n i (suc k) zero h = ap (λ m. some (m % n)) (omega arith)
get_elem?-turns n i (suc k) (suc j) h =
    get_elem?-turns n (i + 1) k j (omega arith) ∙ ap (λ m. some (m % n)) (omega arith)

next_many-eq-turns :
    (k : ℕ) (p : ContextPool)
    → IsRunning p
    → p.thread_context_index + k < int64_max
    → (q : ContextPool) × (next_many k p ≡ some (turns p.thread_count p.thread_context_index k, q))
unfolding next_many
next_many-eq-turns zero p v h = (p, refl)
next_many-eq-turns (suc k) p v h =
    let (q, e, w, n, i) = next_lem p v in
    let j : q.thread_context_index ≡ p.thread_context_index + 1 = ground arith in
    let (r, rest) = next_many-eq-turns k q w (omega arith) in
    let same : turns q.thread_count q.thread_context_index k
        ≡ turns p.thread_count (p.thread_context_index + 1) k =
      cc (n, j) in
    (r, rw (e, next_many, rest, same))

-- Fewer than `n` steps on from an index the remainder by `n` is another.
mod-ne : (n a d : ℕ) → 0 < d → d < n → (a + d) % n ≢ a % n
mod-ne n a d h k e =
    let r = a % n in
    let low : r < n = grind arith in
    let step : (r + d) % n ≡ r = mod-add-mod a n d ∙ e in
    elim (dec_lt (r + d) n) [
      | yes p ↦ omega (arith, mod-eq_of_lt p)
      | no p ↦ omega (
        arith,
        mod-eq-sub-mod {n = r + d} {m = n} (omega arith),
        mod-eq_of_lt {n = r + d - n} {m = n} (omega arith),
      )
    ]

some_eq : (a b : ℕ) → some a ≡ some b → a ≡ b
some_eq a b e = ground arith

-- On a running pool, while the count stays below its largest value: of consecutive calls of `next`,
-- two that are fewer than `thread_count` apart get different contexts, and two that are
-- `thread_count` apart get the same.
pub next_many-fair :
    (k : ℕ) (p : ContextPool)
    → IsRunning p
    → p.thread_context_index + k < int64_max
    → (cs : List ℕ) × (q : ContextPool) × (next_many k p ≡ some (cs, q))
      × ((a d : ℕ) → 0 < d → d < p.thread_count → a + d < k → get_elem? cs (a + d) ≢ get_elem? cs a)
      × ((a : ℕ) → a + p.thread_count < k → get_elem? cs (a + p.thread_count) ≡ get_elem? cs a)
next_many-fair k p v h =
    let n = p.thread_count in
    let i = p.thread_context_index in
    let (q, e) = next_many-eq-turns k p v h in
    let turn = λ (j : ℕ) (l : j < k). get_elem?-turns n i k j l in
    (
      turns n i k,
      q,
      e,
      λ a d pos lt fits same. mod-ne n (i + 1 + a) d pos lt (
          ap (λ m. m % n) (let r : i + 1 + a + d ≡ i + 1 + (a + d) = omega arith in r)
          ∙ some_eq _ _ (sym (turn (a + d) fits) ∙ same ∙ turn a (omega arith))),
      λ a fits.
          turn (a + n) fits
          ∙ ap some (
              ap (λ m. m % n) (let r : i + 1 + (a + n) ≡ i + 1 + a + n = omega arith in r)
              ∙ add-mod_right (i + 1 + a) n)
          ∙ sym (turn a (omega arith)),
    )
