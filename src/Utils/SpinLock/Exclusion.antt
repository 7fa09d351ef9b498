-- ===== src/Utils/SpinLock/Exclusion.antt =====
-- The threads at a lock of engine/utils/spin_lock.hpp, and its counted loop.
use cxxprogram.Prelude.{
  Bool, List, [], ap, arith, false, if◌then◌else◌, leb, length, refl, some, subst, suc, sym, take,
  true, zero, ℕ, ◌+◌, ◌∙◌, ◌∷◌, ◌≡◌,
}
use cxxprogram.Utils.SpinLock.{
  Threads, Step, tries, unlocks, Reach, here, next, set_holds, try_lock, unlock, try_lock_times,
}

pub record IsExclusive (s : Threads) : Type 0 where
  pub taken : (i : ℕ) → s.holds i ≡ true → s.flag ≡ true
  pub one : (i j : ℕ) → s.holds i ≡ true → s.holds j ≡ true → i ≡ j

tries_free-IsExclusive :
    (s : Threads) (i : ℕ)
    → s.flag ≡ false
    → IsExclusive s
    → IsExclusive (record { flag = true; holds = set_holds s.holds i true })
tries_free-IsExclusive s i f v = record {
  taken = λ j h. refl;
  one = λ j k h l. ground (arith, v.taken j, v.taken k);
}

unlocks-IsExclusive :
    (s : Threads) (i : ℕ)
    → s.holds i ≡ true
    → IsExclusive s
    → IsExclusive (record { flag = false; holds = set_holds s.holds i false })
unlocks-IsExclusive s i f v = record {
  taken = λ j h. ground (arith, v.one i j f);
  one = λ j k h l. ground (arith, v.one j k);
}

tries_busy-IsExclusive :
    (s : Threads)
    → s.flag ≡ true
    → IsExclusive s
    → IsExclusive (record { flag = true; holds = s.holds })
tries_busy-IsExclusive s f v = record { taken = λ j h. refl; one = v.one }

try_lock-IsExclusive :
    (s : Threads) (i : ℕ) (flag : Bool)
    → s.flag ≡ flag
    → IsExclusive s
    → IsExclusive (
        let (taken, after) = try_lock flag in
        record { flag = after; holds = if taken then s.holds else set_holds s.holds i true })
unfolding try_lock
try_lock-IsExclusive s i true f v = tries_busy-IsExclusive s f v
try_lock-IsExclusive s i false f v = tries_free-IsExclusive s i f v

Step-IsExclusive : {s t : Threads} → Step s t → IsExclusive s → IsExclusive t
unfolding unlock
Step-IsExclusive {s} (tries i h e) v =
    subst IsExclusive (sym e) (try_lock-IsExclusive s i s.flag refl v)
Step-IsExclusive {s} (unlocks i h e) v = subst IsExclusive (sym e) (unlocks-IsExclusive s i h v)

-- From a free lock that no thread has, however the threads take turns, never two of them have it,
-- and the flag is set while one has.
pub Reach-IsExclusive :
    {s t : Threads} → s.flag ≡ false → ((i : ℕ) → s.holds i ≡ false) → Reach s t → IsExclusive t
Reach-IsExclusive f h here = record {
  taken = λ i e. ground (arith, h i);
  one = λ i j e k. ground (arith, h i);
}
Reach-IsExclusive f h (next r st) = Step-IsExclusive st (Reach-IsExclusive f h r)

-- Whether some of the values is a free lock.
abbrev pub has_free : List Bool → Bool
has_free [] = false
has_free (true ∷ flags) = has_free flags
has_free (false ∷ flags) = true

tries_from :
    (d k : ℕ) (flags : List Bool)
    → leb (suc d) (length flags) ≡ true
    → try_lock_times (k + d) k flags ≡ some (has_free (take (suc d) flags))
unfolding try_lock_times try_lock
tries_from d k [] l = ground arith
tries_from d k (false ∷ flags) l = refl
tries_from zero k (true ∷ flags) l = ground arith
tries_from (suc d) k (true ∷ flags) l =
    let over : leb (k + suc d) k ≡ false = ground arith in
    let rest : try_lock_times (k + suc d) (k + 1) flags ≡ some (has_free (take (suc d) flags)) =
      ap (λ n. try_lock_times n (k + 1) flags) (omega arith)
      ∙ tries_from d (k + 1) flags (ground arith) in
    ap (λ (b : Bool). if b then some false else try_lock_times (k + suc d) (k + 1) flags) over
    ∙ rest

-- `try_lock_times`, whose lock has the values `flags` when it is tried: it gives true just if one of
-- the first `times + 1` of them is free, and it does end where there are so many.
pub try_lock_times_lem :
    (times : ℕ) (flags : List Bool)
    → leb (times + 1) (length flags) ≡ true
    → try_lock_times times 0 flags ≡ some (has_free (take (times + 1) flags))
try_lock_times_lem times flags l =
    let next : suc times ≡ times + 1 = omega arith in
    ap (λ n. try_lock_times n 0 flags) (omega arith)
    ∙ tries_from times 0 flags (ap (λ n. leb n (length flags)) next ∙ l)
    ∙ ap (λ n. some (has_free (take n flags))) next
