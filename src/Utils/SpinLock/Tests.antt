-- ===== src/Utils/SpinLock/Tests.antt =====
-- The theorems on the lock, at small inputs.
use cxxprogram.Prelude.{false, refl, true}
use cxxprogram.Utils.SpinLock.{Threads, tries, Reach, here, next, set_holds, try_lock}
use cxxprogram.Utils.SpinLock.Exclusion.{IsExclusive, Reach-IsExclusive}

abbrev outside : Threads
outside = record { flag = false; holds = λ i. false }

-- Thread 1 gets the lock, and thread 2 tries.
abbrev one_inside : Threads
one_inside = record { flag = true; holds = set_holds (λ i. false) 1 true }

two_tries : Reach outside one_inside
unfolding try_lock
two_tries = next {t = one_inside} (next {t = outside} here (tries 1 refl refl)) (tries 2 refl refl)

Reach-IsExclusive_example : IsExclusive one_inside
Reach-IsExclusive_example =
    Reach-IsExclusive {s = outside} {t = one_inside} refl (λ i. refl) two_tries
