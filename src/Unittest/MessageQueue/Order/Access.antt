-- ===== src/Unittest/MessageQueue/Order/Access.antt =====
-- What a thread at `MessageQueue` (unittest/t_utils/t_condition.cpp) relies on where it is, and what
-- one access keeps.
use cxxprogram.Prelude.{
  Bool, Bool-cases, List, [], ap, append-nil, append_assoc, arith, false, if◌then◌else◌, inl, inr,
  refl, subst, sym, true, ◌++◌, ◌∙◌, ◌∷◌, ◌≡◌, ◌⊎◌,
}
use cxxprogram.Unittest.MessageQueue.{
  Shared, Thread, away, push_locks, push_reads, push_writes, push_unlocks, push_tests,
  push_notifies, pop_locks, pop_tests, pop_checks, pop_asleep, pop_wakes, pop_swaps, pop_clears,
  pop_unlocks, popped, Act, quiet, is_empty, lock, turn, put_in, taken_out,
}

abbrev pub is_inside : {A : Type 0} → Thread A → Bool
is_inside (push_reads v) = true
is_inside (push_writes v q) = true
is_inside push_unlocks = true
is_inside (pop_tests old) = true
is_inside (pop_checks old) = true
is_inside (pop_swaps old) = true
is_inside (pop_clears got) = true
is_inside (pop_unlocks got) = true
is_inside _ = false

-- With the mutex, what went in is what came out and what waits.
abbrev Held : {A : Type 0} → Bool → List A → List A → List A → Type 0
Held locked queue ins outs = (locked ≡ true) × (ins ≡ outs ++ queue)

abbrev Relies : {A : Type 0} → Bool → List A → List A → List A → Thread A → Type 0
Relies l w ins outs (push_reads v) = Held l w ins outs
Relies l w ins outs (push_writes v q) = Held l w ins outs × (q ≡ w)
Relies l w ins outs push_unlocks = Held l w ins outs
Relies l w ins outs (pop_tests old) = Held l w ins outs
Relies l w ins outs (pop_checks old) = Held l w ins outs
Relies l w ins outs (pop_swaps old) = Held l w ins outs
Relies l w ins outs (pop_clears got) = (l ≡ true) × (ins ≡ outs)
Relies l w ins outs (pop_unlocks got) = Held l w ins outs
Relies l w ins outs _ = Unit {0}

abbrev pub At : {A : Type 0} → Shared A → List A → List A → Thread A → Type 0
At s ins outs c = Relies s.locked s.queue ins outs c

-- What came out went in before, and the rest waits, at least while nobody has the mutex.
abbrev pub Whole : {A : Type 0} → Shared A → List A → List A → Type 0
Whole {A} s ins outs =
    (rest : List A) × (ins ≡ outs ++ rest) × ((s.locked ≡ true) ⊎ (rest ≡ s.queue))

pub At-outside :
    {A : Type 0} (s : Shared A) (ins outs : List A) (c : Thread A)
    → is_inside c ≡ false
    → At s ins outs c
At-outside s ins outs away e = tt
At-outside s ins outs (push_locks v) e = tt
At-outside s ins outs (push_reads v) e = cc
At-outside s ins outs (push_writes v q) e = cc
At-outside s ins outs push_unlocks e = cc
At-outside s ins outs push_tests e = tt
At-outside s ins outs push_notifies e = tt
At-outside s ins outs (pop_locks old) e = tt
At-outside s ins outs (pop_tests old) e = cc
At-outside s ins outs (pop_checks old) e = cc
At-outside s ins outs (pop_asleep old) e = tt
At-outside s ins outs (pop_wakes old) e = tt
At-outside s ins outs (pop_swaps old) e = cc
At-outside s ins outs (pop_clears got) e = cc
At-outside s ins outs (pop_unlocks got) e = cc
At-outside s ins outs (popped got) e = tt

pub inside-locked :
    {A : Type 0} (s : Shared A) (ins outs : List A) (c : Thread A)
    → At s ins outs c
    → is_inside c ≡ true
    → s.locked ≡ true
inside-locked s ins outs away h e = cc
inside-locked s ins outs (push_locks v) h e = cc
inside-locked s ins outs (push_reads v) h e = h.0
inside-locked s ins outs (push_writes v q) h e = h.0.0
inside-locked s ins outs push_unlocks h e = h.0
inside-locked s ins outs push_tests h e = cc
inside-locked s ins outs push_notifies h e = cc
inside-locked s ins outs (pop_locks old) h e = cc
inside-locked s ins outs (pop_tests old) h e = h.0
inside-locked s ins outs (pop_checks old) h e = h.0
inside-locked s ins outs (pop_asleep old) h e = cc
inside-locked s ins outs (pop_wakes old) h e = cc
inside-locked s ins outs (pop_swaps old) h e = h.0
inside-locked s ins outs (pop_clears got) h e = h.0
inside-locked s ins outs (pop_unlocks got) h e = h.0
inside-locked s ins outs (popped got) h e = cc

-- What one access does: the thread's own part, that it does not come in beside one that is in, and
-- that it changes nothing of what others rely on while it is out.
pub record Turned {A : Type 0} (s : Shared A) (ins outs : List A) (c : Thread A)
    (r : Shared A × Thread A × Act A) : Type 0 where
  pub own : At r.0 (put_in r.2 ins) (taken_out r.2 outs) r.1
  pub whole : Whole r.0 (put_in r.2 ins) (taken_out r.2 outs)
  pub enters : is_inside r.1 ≡ true → is_inside c ≡ false → s.locked ≡ false
  pub same :
      is_inside c ≡ false
      → s.locked ≡ true
      → (d : Thread A) → At s ins outs d
      → At r.0 (put_in r.2 ins) (taken_out r.2 outs) d

-- A thread goes on outside the mutex.
pub quiet-Turned :
    {A : Type 0} (s : Shared A) (ins outs : List A) (c d : Thread A)
    → Whole s ins outs
    → is_inside d ≡ false
    → Turned s ins outs c (s, d, quiet)
quiet-Turned s ins outs c d w e = record {
  own = At-outside s ins outs d e;
  whole = w;
  enters = λ h k. cc;
  same = λ h k f a. a;
}

-- A thread that has the mutex acts.
inside-Turned :
    {A : Type 0} (s : Shared A) (ins outs : List A) (c : Thread A) (r : Shared A × Thread A × Act A)
    → is_inside c ≡ true
    → At r.0 (put_in r.2 ins) (taken_out r.2 outs) r.1
    → Whole r.0 (put_in r.2 ins) (taken_out r.2 outs)
    → Turned s ins outs c r
inside-Turned s ins outs c r e o w = record {
  own = o;
  whole = w;
  enters = λ h k. cc (sym e ∙ k);
  same = λ h k f a. cc (sym e ∙ h);
}

Whole-free :
    {A : Type 0} (s : Shared A) (ins outs : List A)
    → Whole s ins outs
    → s.locked ≡ false
    → ins ≡ outs ++ s.queue
Whole-free s ins outs (rest, e, inl k) f = cc (sym k ∙ f)
Whole-free s ins outs (rest, e, inr k) f = e ∙ ap (λ q. outs ++ q) k

lock-Turned :
    {A : Type 0} (s : Shared A) (ins outs : List A) (c d : Thread A)
    → Whole s ins outs
    → is_inside c ≡ false
    → ((t : Shared A) → Held t.locked t.queue ins outs → At t ins outs d)
    → Turned s ins outs c (lock s c d)
lock-Turned {A} s ins outs c d w e h = elim (Bool-cases s.locked) [
  | inl k ↦
      subst
        (λ (b : Bool).
          Turned s ins outs c (if b then (s, c, quiet) else (record s { locked = true }, d, quiet)))
        (sym k) (quiet-Turned s ins outs c c w e)
  | inr k ↦
      let all = Whole-free s ins outs w k in
      subst
        (λ (b : Bool).
          Turned s ins outs c (if b then (s, c, quiet) else (record s { locked = true }, d, quiet)))
        (sym k)
        (record {
          own = h (record s { locked = true }) (refl, all);
          whole = (s.queue, all, inr refl);
          enters = λ i f. k;
          same = λ f l. cc (sym k ∙ l);
        })
]

-- A thread that keeps the mutex and what waits.
Held-Turned :
    {A : Type 0} (s : Shared A) (ins outs : List A) (c d : Thread A)
    → is_inside c ≡ true
    → Held s.locked s.queue ins outs
    → At s ins outs d
    → Turned s ins outs c (s, d, quiet)
Held-Turned s ins outs c d e h a =
    inside-Turned s ins outs c (s, d, quiet) e a (s.queue, h.1, inl h.0)

-- A thread that lets go of the mutex.
unlock-Turned :
    {A : Type 0} (s : Shared A) (ins outs : List A) (c d : Thread A)
    → is_inside c ≡ true
    → Held s.locked s.queue ins outs
    → is_inside d ≡ false
    → Turned s ins outs c (record s { locked = false }, d, quiet)
unlock-Turned s ins outs c d e h o =
    inside-Turned s ins outs c (record s { locked = false }, d, quiet) e
      (At-outside (record s { locked = false }) ins outs d o) (s.queue, h.1, inr refl)

-- The outcome of `if (Notify)` and of `queue_.empty()` in `Pop`.
abbrev IsTested : {A : Type 0} → Shared A → List A → List A → List A → Bool → Type 0
IsTested s ins outs old b =
    Turned s ins outs (pop_tests old) (s, if b then pop_checks old else pop_swaps old, quiet)

abbrev IsChecked : {A : Type 0} → Shared A → List A → List A → List A → Bool → Type 0
IsChecked s ins outs old b =
    Turned s ins outs (pop_checks old) (
      if b then (record s { locked = false }, pop_asleep old, quiet) else (s, pop_swaps old, quiet))

pub turn-Turned :
    {A : Type 0} (s : Shared A) (ins outs : List A) (c : Thread A)
    → Whole s ins outs
    → At s ins outs c
    → Turned s ins outs c (turn s c)
unfolding turn
turn-Turned s ins outs away w h = quiet-Turned s ins outs away away w refl
turn-Turned s ins outs (push_locks v) w h =
    lock-Turned s ins outs (push_locks v) (push_reads v) w refl (λ t k. k)
turn-Turned s ins outs (push_reads v) w h =
    Held-Turned s ins outs (push_reads v) (push_writes v s.queue) refl h (h, refl)
turn-Turned s ins outs (push_writes v q) w ((l, e), f) =
    let more =
      ap (λ i. i ++ v ∷ []) e
      ∙ append_assoc outs s.queue (v ∷ [])
      ∙ ap (λ p. outs ++ (p ++ v ∷ [])) (sym f) in
    inside-Turned s ins outs (push_writes v q) _ refl (l, more) (q ++ v ∷ [], more, inl l)
turn-Turned s ins outs push_unlocks w h =
    unlock-Turned s ins outs push_unlocks push_tests refl h refl
turn-Turned s ins outs push_tests w h =
    quiet-Turned s ins outs push_tests (if s.notify then push_notifies else away) w (ground arith)
turn-Turned s ins outs push_notifies w h =
    quiet-Turned s ins outs push_notifies push_notifies w refl
turn-Turned s ins outs (pop_locks old) w h =
    lock-Turned s ins outs (pop_locks old) (pop_tests old) w refl (λ t k. k)
turn-Turned s ins outs (pop_tests old) w h = elim (Bool-cases s.notify) [
  | inl e ↦
      subst (IsTested s ins outs old) (sym e)
        (Held-Turned s ins outs (pop_tests old) (pop_checks old) refl h h)
  | inr e ↦
      subst (IsTested s ins outs old) (sym e)
        (Held-Turned s ins outs (pop_tests old) (pop_swaps old) refl h h)
]
turn-Turned s ins outs (pop_checks old) w h = elim (Bool-cases (is_empty s.queue)) [
  | inl e ↦
      subst (IsChecked s ins outs old) (sym e)
        (unlock-Turned s ins outs (pop_checks old) (pop_asleep old) refl h refl)
  | inr e ↦
      subst (IsChecked s ins outs old) (sym e)
        (Held-Turned s ins outs (pop_checks old) (pop_swaps old) refl h h)
]
turn-Turned s ins outs (pop_asleep old) w h =
    quiet-Turned s ins outs (pop_asleep old) (pop_asleep old) w refl
turn-Turned s ins outs (pop_wakes old) w h =
    lock-Turned s ins outs (pop_wakes old) (pop_checks old) w refl (λ t k. k)
turn-Turned s ins outs (pop_swaps old) w (l, e) =
    inside-Turned s ins outs (pop_swaps old) _ refl (l, e)
      ([], e ∙ sym (append-nil (outs ++ s.queue)), inl l)
turn-Turned s ins outs (pop_clears got) w (l, e) =
    let all = e ∙ sym (append-nil outs) in
    inside-Turned s ins outs (pop_clears got) _ refl (l, all) ([], all, inl l)
turn-Turned s ins outs (pop_unlocks got) w h =
    unlock-Turned s ins outs (pop_unlocks got) (popped got) refl h refl
turn-Turned s ins outs (popped got) w h = quiet-Turned s ins outs (popped got) (popped got) w refl
