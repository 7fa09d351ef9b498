-- ===== src/Unittest/MessageQueue.antt =====
-- unittest/t_utils/t_condition.cpp: `MessageQueue` as its threads run it, one access at a time. A
-- mutex is a flag, and an access to the vector takes a reading and a writing step, so that only the
-- mutex keeps the threads apart; an access to `Notify` is taken to be atomic, though it is a plain
-- `bool`. Of the condition variable this is used: `wait` lets go of the mutex and falls asleep in one
-- step, wakes by a notification or for no reason, and takes the mutex again before it returns;
-- `notify_one` wakes one sleeper, when there is one.
pub mod Order
pub mod Wakeups
mod Tests
use cxxprogram.Prelude.{Bool, List, [], false, if◌then◌else◌, true, ℕ, ◌++◌, ◌==◌, ◌∷◌, ◌≡◌}

pub record Shared (A : Type 0) : Type 0 where
  pub queue : List A
  pub locked : Bool
  pub notify : Bool

-- Where a thread is. A call of `Pop` carries what its argument holds.
pub data Thread (A : Type 0) : Type 0 where
  away : Thread A
  -- `Push`: the mutex, `push_back` in two steps, `guard.unlock()`, `if (Notify)`, `notify_one`.
  push_locks : A → Thread A
  push_reads : A → Thread A
  push_writes : A → List A → Thread A
  push_unlocks : Thread A
  push_tests : Thread A
  push_notifies : Thread A
  -- `Pop`: the mutex, `if (Notify)`, `while (queue_.empty())`, `wait` in two steps.
  pop_locks : List A → Thread A
  pop_tests : List A → Thread A
  pop_checks : List A → Thread A
  pop_asleep : List A → Thread A
  pop_wakes : List A → Thread A
  -- `std::swap`, `queue_.clear()`, the end of the guard, and what the argument then holds.
  pop_swaps : List A → Thread A
  pop_clears : List A → Thread A
  pop_unlocks : List A → Thread A
  popped : List A → Thread A

-- What a step does to the messages: one goes in, or all that wait come out.
pub data Act (A : Type 0) : Type 0 where
  quiet : Act A
  puts : A → Act A
  takes : List A → Act A

abbrev pub is_empty : {A : Type 0} → List A → Bool
is_empty [] = true
is_empty (x ∷ xs) = false

-- A try to take the mutex.
abbrev pub lock : {A : Type 0} → Shared A → Thread A → Thread A → Shared A × Thread A × Act A
lock s waits holds =
    if s.locked then (s, waits, quiet) else (record s { locked = true }, holds, quiet)

-- One access of a thread; one that is asleep or notifies goes on by a step of the system.
unfoldable pub turn : {A : Type 0} → Shared A → Thread A → Shared A × Thread A × Act A
turn s away = (s, away, quiet)
turn s (push_locks v) = lock s (push_locks v) (push_reads v)
turn s (push_reads v) = (s, push_writes v s.queue, quiet)
turn s (push_writes v q) = (record s { queue = q ++ v ∷ [] }, push_unlocks, puts v)
turn s push_unlocks = (record s { locked = false }, push_tests, quiet)
turn s push_tests = (s, if s.notify then push_notifies else away, quiet)
turn s push_notifies = (s, push_notifies, quiet)
turn s (pop_locks old) = lock s (pop_locks old) (pop_tests old)
turn s (pop_tests old) = (s, if s.notify then pop_checks old else pop_swaps old, quiet)
turn s (pop_checks old) =
    if is_empty s.queue
    then (record s { locked = false }, pop_asleep old, quiet)
    else (s, pop_swaps old, quiet)
turn s (pop_asleep old) = (s, pop_asleep old, quiet)
turn s (pop_wakes old) = lock s (pop_wakes old) (pop_checks old)
turn s (pop_swaps old) = (record s { queue = old }, pop_clears s.queue, takes s.queue)
turn s (pop_clears got) = (record s { queue = [] }, pop_unlocks got, quiet)
turn s (pop_unlocks got) = (record s { locked = false }, popped got, quiet)
turn s (popped got) = (s, popped got, quiet)

pub record System (A : Type 0) : Type 0 where
  pub shared : Shared A
  pub threads : ℕ → Thread A

abbrev pub set_thread : {T : Type 0} → (ℕ → T) → ℕ → T → ℕ → T
set_thread f i c j = if i == j then c else f j

-- What thread `i` makes of the system by an access with that outcome.
abbrev pub with_thread : {A : Type 0} → System A → ℕ → Shared A × Thread A × Act A → System A
with_thread s i (m, c, a) = record { shared = m; threads = set_thread s.threads i c }

abbrev pub is_free : {A : Type 0} → Thread A → Bool
is_free away = true
is_free (popped got) = true
is_free _ = false

abbrev pub is_asleep : {A : Type 0} → Thread A → Bool
is_asleep (pop_asleep old) = true
is_asleep _ = false

abbrev pub woken : {A : Type 0} → Thread A → Thread A
woken (pop_asleep old) = pop_wakes old
woken c = c

pub data Step {A : Type 0} (s : System A) : Act A → System A → Type 0 where
  calls_push :
      (i : ℕ) (v : A)
      → is_free (s.threads i) ≡ true
      → Step s quiet (with_thread s i (s.shared, push_locks v, quiet))
  calls_pop :
      (i : ℕ) (old : List A)
      → is_free (s.threads i) ≡ true
      → Step s quiet (with_thread s i (s.shared, pop_locks old, quiet))
  moves :
      (i : ℕ)
      → Step s (turn s.shared (s.threads i)).2 (with_thread s i (turn s.shared (s.threads i)))
  -- `notify_one`, with a sleeper and without.
  notifies :
      (i j : ℕ)
      → s.threads i ≡ push_notifies
      → is_asleep (s.threads j) ≡ true
      → Step s quiet
          (record s { threads = set_thread (set_thread s.threads j (woken (s.threads j))) i away })
  notifies_none :
      (i : ℕ)
      → s.threads i ≡ push_notifies
      → ((j : ℕ) → is_asleep (s.threads j) ≡ false)
      → Step s quiet (with_thread s i (s.shared, away, quiet))
  wakes :
      (j : ℕ)
      → is_asleep (s.threads j) ≡ true
      → Step s quiet (with_thread s j (s.shared, woken (s.threads j), quiet))
  disables_notify : Step s quiet (record s { shared = record s.shared { notify = false } })

abbrev pub put_in : {A : Type 0} → Act A → List A → List A
put_in quiet ins = ins
put_in (puts v) ins = ins ++ v ∷ []
put_in (takes q) ins = ins

abbrev pub taken_out : {A : Type 0} → Act A → List A → List A
taken_out quiet outs = outs
taken_out (puts v) outs = outs
taken_out (takes q) outs = outs ++ q

-- Steps in turn, with the messages that were put in and those that were taken, in their order.
pub data Run {A : Type 0} (s : System A) : List A → List A → System A → Type 0 where
  here : Run s [] [] s
  next :
      {ins outs : List A} {t u : System A} {a : Act A}
      → Run s ins outs t
      → Step t a u
      → Run s (put_in a ins) (taken_out a outs) u

-- A new queue, with no thread in a call.
abbrev pub begin : (A : Type 0) → System A
begin A = record {
  shared = record { queue = []; locked = false; notify = true };
  threads = λ i. away;
}
