-- ===== src/Utils/SpinLock.antt =====
-- engine/utils/spin_lock.hpp: a flag that is tested and set in one step. `try_lock` returns the old
-- value: true while another thread has the lock. The threads are a relation between states.
pub mod Exclusion
mod Tests
use mathlib.Core.Option
use cxxprogram.Prelude.{
  Bool, List, Option, [], false, if◌then◌else◌, leb, none, some, suc, true, zero, ℕ, ◌%◌, ◌+◌, ◌==◌,
  ◌∷◌, ◌≡◌,
}

-- `test_and_set`: the old value, and the new flag.
unfoldable pub try_lock : Bool → Bool × Bool
try_lock flag = (flag, true)

unfoldable pub unlock : Bool → Bool
unlock flag = false

-- The loop of `lock`, over the values that the flag has when it is tried: the rounds it takes, or
-- `none` if the lock is not free in any of them.
unfoldable pub lock : List Bool → Option ℕ
unfolding try_lock
lock [] = none
lock (flag ∷ flags) =
    let rest = lock flags in if (try_lock flag).0 then Option.map (λ k. suc k) rest else some 0

-- The number of milliseconds slept is the number of rounds `k` with `k % 1024 == 0`.
unfoldable pub sleeps : ℕ → ℕ
sleeps zero = 0
sleeps (suc k) = sleeps k + (if k % 1024 == 0 then 1 else 0)

-- `try_lock_times`: `k` tries made so far, at most `times` failed ones before it gives up.
unfoldable pub try_lock_times : ℕ → ℕ → List Bool → Option Bool
unfolding try_lock
try_lock_times times k [] = none
try_lock_times times k (flag ∷ flags) =
    let rest = try_lock_times times (k + 1) flags in
    if (try_lock flag).0 then (if leb times k then some false else rest) else some true

-- A thread is outside, or has the lock.
pub record Threads : Type 0 where
  pub flag : Bool
  pub holds : ℕ → Bool

abbrev pub set_holds : (ℕ → Bool) → ℕ → Bool → ℕ → Bool
set_holds f i b j = if i == j then b else f j

-- A try of a thread that does not have the lock, and an `unlock` by the thread that has it.
pub data Step (s : Threads) : Threads → Type 0 where
  tries :
      (i : ℕ) {t : Threads}
      → s.holds i ≡ false
      → t ≡ (
          let (taken, flag) = try_lock s.flag in
          record { flag = flag; holds = if taken then s.holds else set_holds s.holds i true })
      → Step s t
  unlocks :
      (i : ℕ) {t : Threads}
      → s.holds i ≡ true
      → t ≡ record { flag = unlock s.flag; holds = set_holds s.holds i false }
      → Step s t

pub data Reach (s : Threads) : Threads → Type 0 where
  here : Reach s s
  next : {t u : Threads} → Reach s t → Step t u → Reach s u
