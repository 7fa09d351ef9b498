-- ===== src/Unittest/MessageQueue/Order.antt =====
-- The messages of `MessageQueue` (unittest/t_utils/t_condition.cpp) come out in the order in which
-- they went in.
pub mod Access
use cxxprogram.Prelude.{
  Bool, Bool-cases, List, [], arith, false, if◌then◌else◌, inl, inr, refl, subst, sym, true, ℕ,
  ◌++◌, ◌==◌, ◌∙◌, ◌≡◌, ◌⊎◌,
}
use cxxprogram.Unittest.MessageQueue.{
  Shared, Thread, Act, quiet, away, push_locks, pop_locks, pop_asleep, pop_wakes, is_free,
  is_asleep, woken, turn, System, set_thread, with_thread, Step, calls_push, calls_pop, moves,
  notifies, notifies_none, wakes, disables_notify, put_in, taken_out, Run, here, next, begin,
}
use cxxprogram.Unittest.MessageQueue.Order.Access.{
  Whole, At, At-outside, is_inside, inside-locked, Turned, turn-Turned, quiet-Turned,
}

abbrev IsAlone : {T : Type 0} → (T → Bool) → (ℕ → T) → Type 0
IsAlone p f = (i j : ℕ) → p (f i) ≡ true → p (f j) ≡ true → i ≡ j

set_thread-IsAlone :
    {T : Type 0} (p : T → Bool) (f : ℕ → T) (i : ℕ) (c : T)
    → IsAlone p f
    → ((k : ℕ) → p c ≡ true → p (f k) ≡ true → i ≡ k)
    → IsAlone p (set_thread f i c)
set_thread-IsAlone p f i c h l j k = ground (arith, h j k, l j, l k)

-- All threads: each relies on what it may, and at most one has the mutex.
record IsOrdered {A : Type 0} (s : System A) (ins outs : List A) : Type 0 where
  pub whole : Whole s.shared ins outs
  pub at : (i : ℕ) → At s.shared ins outs (s.threads i)
  pub alone : IsAlone is_inside s.threads

module _ {A : Type 0} (s : System A) (ins outs : List A) (v : IsOrdered s ins outs) where
  -- A thread that has the mutex had it, or nobody had.
  entered :
      (i k : ℕ) (r : Shared A × Thread A × Act A)
      → Turned s.shared ins outs (s.threads i) r
      → is_inside r.1 ≡ true
      → is_inside (s.threads k) ≡ true
      → i ≡ k
  entered i k r t h l = elim (Bool-cases (is_inside (s.threads i))) [
    | inl e ↦ v.alone i k e l
    | inr e ↦ cc (sym (t.enters h e) ∙ inside-locked s.shared ins outs (s.threads k) (v.at k) l)
  ]

  stays :
      (i j : ℕ) (r : Shared A × Thread A × Act A)
      → Turned s.shared ins outs (s.threads i) r
      → (i == j) ≡ false
      → At r.0 (put_in r.2 ins) (taken_out r.2 outs) (s.threads j)
  stays i j r t n = elim (Bool-cases (is_inside (s.threads j))) [
    | inr e ↦ At-outside r.0 (put_in r.2 ins) (taken_out r.2 outs) (s.threads j) e
    | inl e ↦ elim (Bool-cases (is_inside (s.threads i))) [
      | inl h ↦ let same = v.alone i j h e in absurd (ground arith)
      | inr h ↦
          t.same h (inside-locked s.shared ins outs (s.threads j) (v.at j) e) (s.threads j) (v.at j)
    ]
  ]

  with_thread-IsOrdered :
      (i : ℕ) (r : Shared A × Thread A × Act A)
      → Turned s.shared ins outs (s.threads i) r
      → IsOrdered (with_thread s i r) (put_in r.2 ins) (taken_out r.2 outs)
  with_thread-IsOrdered i r t = record {
    whole = t.whole;
    at = λ j. elim (Bool-cases (i == j)) [
      | inl e ↦
          subst
            (λ (b : Bool).
              At r.0 (put_in r.2 ins) (taken_out r.2 outs) (if b then r.1 else s.threads j))
            (sym e) t.own
      | inr e ↦
          subst
            (λ (b : Bool).
              At r.0 (put_in r.2 ins) (taken_out r.2 outs) (if b then r.1 else s.threads j))
            (sym e) (stays i j r t e)
    ];
    alone = set_thread-IsAlone is_inside s.threads i r.1 v.alone (λ k. entered i k r t);
  }

  -- A thread goes elsewhere outside the mutex.
  moved-IsOrdered :
      (i : ℕ) (c : Thread A)
      → is_inside c ≡ false
      → IsOrdered (with_thread s i (s.shared, c, quiet)) ins outs
  moved-IsOrdered i c e =
      with_thread-IsOrdered i (s.shared, c, quiet)
        (quiet-Turned s.shared ins outs (s.threads i) c v.whole e)

woken-outside : {A : Type 0} (c : Thread A) → is_asleep c ≡ true → is_inside (woken c) ≡ false
woken-outside c e = ground arith

Step-IsOrdered :
    {A : Type 0} {s t : System A} {a : Act A} {ins outs : List A}
    → Step s a t
    → IsOrdered s ins outs
    → IsOrdered t (put_in a ins) (taken_out a outs)
Step-IsOrdered {s = s} {ins = ins} {outs = outs} (calls_push i v e) o =
    moved-IsOrdered s ins outs o i (push_locks v) refl
Step-IsOrdered {s = s} {ins = ins} {outs = outs} (calls_pop i old e) o =
    moved-IsOrdered s ins outs o i (pop_locks old) refl
Step-IsOrdered {s = s} {ins = ins} {outs = outs} (moves i) o =
    with_thread-IsOrdered s ins outs o i (turn s.shared (s.threads i))
      (turn-Turned s.shared ins outs (s.threads i) o.whole (o.at i))
Step-IsOrdered {s = s} {ins = ins} {outs = outs} (notifies i j e k) o =
    let w = moved-IsOrdered s ins outs o j (woken (s.threads j)) (woken-outside (s.threads j) k) in
    moved-IsOrdered (with_thread s j (s.shared, woken (s.threads j), quiet)) ins outs w i away refl
Step-IsOrdered {s = s} {ins = ins} {outs = outs} (notifies_none i e k) o =
    moved-IsOrdered s ins outs o i away refl
Step-IsOrdered {s = s} {ins = ins} {outs = outs} (wakes j k) o =
    moved-IsOrdered s ins outs o j (woken (s.threads j)) (woken-outside (s.threads j) k)
Step-IsOrdered {s = s} {ins = ins} {outs = outs} disables_notify o = record {
  whole = o.whole;
  at = o.at;
  alone = o.alone;
}

Run-IsOrdered :
    {A : Type 0} {s t : System A} {ins outs : List A}
    → IsOrdered s [] []
    → Run s ins outs t
    → IsOrdered t ins outs
Run-IsOrdered o here = o
Run-IsOrdered o (next r st) = Step-IsOrdered st (Run-IsOrdered o r)

-- However the threads take turns from a new queue on: what has been taken out is the beginning of what
-- was put in, in the same order; and the rest is what the queue holds, unless a thread has the mutex.
pub Run-order :
    {A : Type 0} {ins outs : List A} {t : System A}
    → Run (begin A) ins outs t
    → (rest : List A) × (ins ≡ outs ++ rest) × ((t.shared.locked ≡ true) ⊎ (rest ≡ t.shared.queue))
Run-order {A} r =
    (Run-IsOrdered (record { whole = ([], refl, inr refl); at = λ i. tt; alone = λ i j h l. cc })
      r).whole
