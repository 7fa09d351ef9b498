-- ===== src/Unittest/MessageQueue/Wakeups.antt =====
-- No thread sleeps at `MessageQueue` (unittest/t_utils/t_condition.cpp) while messages wait and nobody
-- is on the way to them.
use cxxprogram.Prelude.{
  ==_iff, Bool, Bool-cases, List, [], ap, arith, false, if◌then◌else◌, inl, inr, refl, subst, sym,
  true, ℕ, ◌==◌, ◌∙◌, ◌∷◌, ◌≡◌, ◌⊎◌,
}
use cxxprogram.Unittest.MessageQueue.{
  Shared, Thread, away, push_locks, push_reads, push_writes, push_unlocks, push_tests,
  push_notifies, pop_locks, pop_tests, pop_checks, pop_asleep, pop_wakes, pop_swaps, pop_clears,
  pop_unlocks, popped, Act, quiet, is_empty, lock, turn, is_free, is_asleep, woken, System,
  set_thread, with_thread, Step, calls_push, calls_pop, moves, notifies, notifies_none, wakes,
  disables_notify, Run, here, next, begin,
}

-- On the way to notify a sleeper, or to look at the queue after a wait or before one.
abbrev pub is_awake : {A : Type 0} → Thread A → Bool
is_awake push_unlocks = true
is_awake push_tests = true
is_awake push_notifies = true
is_awake (pop_wakes old) = true
is_awake (pop_checks old) = true
is_awake (pop_swaps old) = true
is_awake (pop_clears got) = true
is_awake _ = false

-- What one access does about the sleepers.
data Heeds {A : Type 0} (s : Shared A) (c : Thread A) (r : Shared A × Thread A × Act A)
    : Type 0 where
  is_off : s.notify ≡ false → Heeds s c r
  is_emptied : r.0.queue ≡ [] → Heeds s c r
  goes_to : is_awake r.1 ≡ true → Heeds s c r
  leaves : r.0.queue ≡ s.queue → is_awake c ≡ false → is_asleep r.1 ≡ is_asleep c → Heeds s c r

abbrev IsLocked : {A : Type 0} → Shared A → Thread A → Thread A → Bool → Type 0
IsLocked s c d b = Heeds s c (if b then (s, c, quiet) else (record s { locked = true }, d, quiet))

-- A thread that tries to take the mutex, on the way to the queue or not.
lock-awake :
    {A : Type 0} (s : Shared A) (c d : Thread A)
    → is_awake c ≡ true
    → is_awake d ≡ true
    → Heeds s c (lock s c d)
lock-awake s c d h k = elim (Bool-cases s.locked) [
  | inl e ↦ subst (IsLocked s c d) (sym e) (goes_to h)
  | inr e ↦ subst (IsLocked s c d) (sym e) (goes_to k)
]

lock-leaves :
    {A : Type 0} (s : Shared A) (c d : Thread A)
    → is_awake c ≡ false
    → is_asleep d ≡ is_asleep c
    → Heeds s c (lock s c d)
lock-leaves s c d h k = elim (Bool-cases s.locked) [
  | inl e ↦ subst (IsLocked s c d) (sym e) (leaves refl h refl)
  | inr e ↦ subst (IsLocked s c d) (sym e) (leaves refl h k)
]

lock-notify : {A : Type 0} (s : Shared A) (c d : Thread A) → (lock s c d).0.notify ≡ s.notify
lock-notify s c d = ground arith

turn-notify : {A : Type 0} (s : Shared A) (c : Thread A) → (turn s c).0.notify ≡ s.notify
unfolding turn
turn-notify s away = refl
turn-notify s (push_locks v) = lock-notify s (push_locks v) (push_reads v)
turn-notify s (push_reads v) = refl
turn-notify s (push_writes v q) = refl
turn-notify s push_unlocks = refl
turn-notify s push_tests = refl
turn-notify s push_notifies = refl
turn-notify s (pop_locks old) = lock-notify s (pop_locks old) (pop_tests old)
turn-notify s (pop_tests old) = refl
turn-notify s (pop_checks old) = ground arith
turn-notify s (pop_asleep old) = refl
turn-notify s (pop_wakes old) = lock-notify s (pop_wakes old) (pop_checks old)
turn-notify s (pop_swaps old) = refl
turn-notify s (pop_clears got) = refl
turn-notify s (pop_unlocks got) = refl
turn-notify s (popped got) = refl

empty_eq : {A : Type 0} (q : List A) → is_empty q ≡ true → q ≡ []
empty_eq [] e = refl
empty_eq (x ∷ q) e = cc

abbrev IsChecked : {A : Type 0} → Shared A → List A → Bool → Type 0
IsChecked s old b =
    Heeds s (pop_checks old) (
      if b then (record s { locked = false }, pop_asleep old, quiet) else (s, pop_swaps old, quiet))

turn-Heeds : {A : Type 0} (s : Shared A) (c : Thread A) → Heeds s c (turn s c)
unfolding turn
turn-Heeds s away = leaves refl refl refl
turn-Heeds s (push_locks v) = lock-leaves s (push_locks v) (push_reads v) refl refl
turn-Heeds s (push_reads v) = leaves refl refl refl
turn-Heeds s (push_writes v q) = goes_to refl
turn-Heeds s push_unlocks = goes_to refl
turn-Heeds {A} s push_tests = elim (Bool-cases s.notify) [
  | inl e ↦ goes_to (ap (λ (b : Bool). is_awake {A = A} (if b then push_notifies else away)) e)
  | inr e ↦ is_off e
]
turn-Heeds s push_notifies = goes_to refl
turn-Heeds s (pop_locks old) = lock-leaves s (pop_locks old) (pop_tests old) refl refl
turn-Heeds {A} s (pop_tests old) = elim (Bool-cases s.notify) [
  | inl e ↦
      goes_to (ap (λ (b : Bool). is_awake {A = A} (if b then pop_checks old else pop_swaps old)) e)
  | inr e ↦ is_off e
]
turn-Heeds s (pop_checks old) = elim (Bool-cases (is_empty s.queue)) [
  | inl e ↦ subst (IsChecked s old) (sym e) (is_emptied (empty_eq s.queue e))
  | inr e ↦ subst (IsChecked s old) (sym e) (goes_to refl)
]
turn-Heeds s (pop_asleep old) = leaves refl refl refl
turn-Heeds s (pop_wakes old) = lock-awake s (pop_wakes old) (pop_checks old) refl refl
turn-Heeds s (pop_swaps old) = goes_to refl
turn-Heeds s (pop_clears got) = is_emptied refl
turn-Heeds s (pop_unlocks got) = leaves refl refl refl
turn-Heeds s (popped got) = leaves refl refl refl

-- A sleeper with messages waiting has somebody on the way.
abbrev IsHeeded : {A : Type 0} → System A → Type 0
IsHeeded s =
    (i : ℕ)
    → is_asleep (s.threads i) ≡ true
    → (s.shared.queue ≡ []) ⊎ ((j : ℕ) × (is_awake (s.threads j) ≡ true))

set_thread_self : {T : Type 0} (f : ℕ → T) (i : ℕ) (c : T) → set_thread f i c i ≡ c
set_thread_self f i c = ground arith

set_thread_other :
    {T : Type 0} (f : ℕ → T) (i j : ℕ) (c : T) → (i == j) ≡ false → set_thread f i c j ≡ f j
set_thread_other f i j c e = ground arith

-- What holds of thread `i` before and after holds of all as before.
set_thread_keeps :
    {T : Type 0} (p : T → Bool) (f : ℕ → T) (i : ℕ) (c : T) (k : ℕ)
    → p c ≡ p (f i)
    → p (set_thread f i c k) ≡ p (f k)
set_thread_keeps p f i c k e = elim (Bool-cases (i == k)) [
  | inl h ↦ ap (λ b. p (if b then c else f k)) h ∙ e ∙ ap (λ l. p (f l)) ((==_iff i k).0 h)
  | inr h ↦ ap (λ b. p (if b then c else f k)) h
]

with_thread-IsHeeded :
    {A : Type 0} (s : System A) (i : ℕ) (r : Shared A × Thread A × Act A)
    → s.shared.notify ≡ true
    → Heeds s.shared (s.threads i) r
    → IsHeeded s
    → IsHeeded (with_thread s i r)
with_thread-IsHeeded s i r n (is_off e) v k h = cc (sym n ∙ e)
with_thread-IsHeeded s i r n (is_emptied e) v k h = inl e
with_thread-IsHeeded s i r n (goes_to e) v k h =
    inr (i, ap is_awake (set_thread_self s.threads i r.1) ∙ e)
with_thread-IsHeeded s i r n (leaves q a e) v k h =
    elim (v k (sym (set_thread_keeps is_asleep s.threads i r.1 k e) ∙ h)) [
      | inl w ↦ inl (q ∙ w)
      | inr (j, w) ↦ elim (Bool-cases (i == j)) [
        | inl same ↦ cc (sym w ∙ ap (λ l. is_awake (s.threads l)) (sym ((==_iff i j).0 same)) ∙ a)
        | inr other ↦ inr (j, ap is_awake (set_thread_other s.threads i j r.1 other) ∙ w)
      ]
    ]

Step-notify :
    {A : Type 0} {s t : System A} {a : Act A}
    → Step s a t
    → t.shared.notify ≡ true
    → s.shared.notify ≡ true
Step-notify (calls_push i v e) n = n
Step-notify (calls_pop i old e) n = n
Step-notify {s = s} (moves i) n = sym (turn-notify s.shared (s.threads i)) ∙ n
Step-notify (notifies i j e h) n = n
Step-notify (notifies_none i e h) n = n
Step-notify (wakes j h) n = n
Step-notify disables_notify n = cc

woken-awake : {A : Type 0} (c : Thread A) → is_asleep c ≡ true → is_awake (woken c) ≡ true
woken-awake c e = ground arith

free-plain :
    {A : Type 0} (c : Thread A) → is_free c ≡ true → (is_awake c ≡ false) × (is_asleep c ≡ false)
free-plain c e = ground arith

Step-IsHeeded :
    {A : Type 0} {s t : System A} {a : Act A}
    → Step s a t
    → s.shared.notify ≡ true
    → IsHeeded s
    → IsHeeded t
Step-IsHeeded {s = s} (calls_push i v e) n w =
    let (f, g) = free-plain (s.threads i) e in
    with_thread-IsHeeded s i (s.shared, push_locks v, quiet) n (leaves refl f (sym g)) w
Step-IsHeeded {s = s} (calls_pop i old e) n w =
    let (f, g) = free-plain (s.threads i) e in
    with_thread-IsHeeded s i (s.shared, pop_locks old, quiet) n (leaves refl f (sym g)) w
Step-IsHeeded {s = s} (moves i) n w =
    with_thread-IsHeeded s i (turn s.shared (s.threads i)) n (turn-Heeds s.shared (s.threads i)) w
Step-IsHeeded {s = s} (notifies i j e h) n w = elim (Bool-cases (i == j)) [
  | inl same ↦
      cc (sym h ∙ ap (λ l. is_asleep (s.threads l)) (sym ((==_iff i j).0 same)) ∙ ap is_asleep e)
  | inr other ↦ λ k l. inr (
    j,
    ap is_awake (
          set_thread_other (set_thread s.threads j (woken (s.threads j))) i j away other
          ∙ set_thread_self s.threads j (woken (s.threads j)))
        ∙ woken-awake (s.threads j) h,
  )
]
Step-IsHeeded {s = s} (notifies_none i e h) n w =
    λ k l. cc (sym l ∙ set_thread_keeps is_asleep s.threads i away k (sym (ap is_asleep e)) ∙ h k)
Step-IsHeeded {s = s} (wakes j h) n w =
    with_thread-IsHeeded s j (s.shared, woken (s.threads j), quiet) n
      (goes_to (woken-awake (s.threads j) h)) w
Step-IsHeeded disables_notify n w = w

Run-IsHeeded :
    {A : Type 0} {s t : System A} {ins outs : List A}
    → IsHeeded s
    → Run s ins outs t
    → t.shared.notify ≡ true
    → IsHeeded t
Run-IsHeeded v here n = v
Run-IsHeeded v (next r st) n = let m = Step-notify st n in Step-IsHeeded st m (Run-IsHeeded v r m)

-- However the threads take turns from a new queue on: where a thread is asleep in `Pop` and
-- notification has not been disabled, the queue is empty, or a thread that put in a message has not yet
-- notified, or a thread is awake in `Pop` and goes to the queue; no wake-up is lost.
pub Run-awake :
    {A : Type 0} {ins outs : List A} {t : System A} (i : ℕ)
    → Run (begin A) ins outs t
    → t.shared.notify ≡ true
    → is_asleep (t.threads i) ≡ true
    → (t.shared.queue ≡ []) ⊎ ((j : ℕ) × (is_awake (t.threads j) ≡ true))
Run-awake i r n = Run-IsHeeded (λ j h. cc) r n i
