-- ===== src/Utils/Singleton/Making.antt =====
-- The object of engine/utils/singleton.hpp is made once, and every thread gets it.
pub mod Access
use cxxprogram.Prelude.{
  Bool, Bool-cases, Option, ap, arith, false, if◌then◌else◌, inl, inr, length, none, refl, some,
  subst, suc, sym, true, zero, ℕ, ◌==◌, ◌∙◌, ◌≡◌, ◌≤◌,
}
use cxxprogram.Utils.Singleton.{
  Static, Caller, outside, tests_ins, calls_once, constructs, assigns, leaves, reads, returned,
  is_null, turn, System, set_caller, Step, calls, goes_on, Reach, here, next, begin, destroy,
}
use cxxprogram.Utils.Singleton.Making.Access.{
  At, is_inside, IsStatic, inside-active, At-other, Turned, turn-Turned,
}

-- All threads: each relies on what it may, and at most one is in the function.
pub record IsOnce {A : Type 0} (s : System A) : Type 0 where
  pub static : IsStatic s.static
  pub at : (i : ℕ) → At s.static (s.callers i)
  pub alone : (i j : ℕ) → is_inside (s.callers i) ≡ true → is_inside (s.callers j) ≡ true → i ≡ j

-- A thread in the function is the one that was in it, or nobody was.
entered :
    {A : Type 0} (s : System A) (i k : ℕ) (r : Static A × Caller A)
    → IsOnce s
    → Turned s.static (s.callers i) r
    → is_inside r.1 ≡ true
    → is_inside (s.callers k) ≡ true
    → i ≡ k
entered s i k r v t h l = elim (Bool-cases (is_inside (s.callers i))) [
  | inl e ↦ v.alone i k e l
  | inr e ↦ cc (sym (t.enters h e) ∙ inside-active s.static (s.callers k) (v.at k) l)
]

stays :
    {A : Type 0} (s : System A) (i j : ℕ) (r : Static A × Caller A)
    → IsOnce s
    → Turned s.static (s.callers i) r
    → (i == j) ≡ false
    → At r.0 (s.callers j)
stays s i j r v t n = elim (Bool-cases (is_inside (s.callers j))) [
  | inr e ↦ At-other s.static r.0 (s.callers j) e t.kept (v.at j)
  | inl e ↦ elim (Bool-cases (is_inside (s.callers i))) [
    | inl h ↦ let same = v.alone i j h e in absurd (ground arith)
    | inr h ↦
        let still = t.same h (inside-active s.static (s.callers j) (v.at j) e) in
        subst (λ q. At q (s.callers j)) (sym still) (v.at j)
  ]
]

goes_on-IsOnce :
    {A : Type 0} (s : System A) (i : ℕ) (r : Static A × Caller A)
    → IsOnce s
    → Turned s.static (s.callers i) r
    → IsOnce (record { static = r.0; callers = set_caller s.callers i r.1 })
goes_on-IsOnce s i r v t = record {
  static = t.static;
  at = λ j. elim (Bool-cases (i == j)) [
    | inl e ↦ subst (λ (b : Bool). At r.0 (if b then r.1 else s.callers j)) (sym e) t.own
    | inr e ↦
        subst (λ (b : Bool). At r.0 (if b then r.1 else s.callers j)) (sym e) (stays s i j r v t e)
  ];
  alone = λ j k. ground (arith, entered s i j r v t, entered s i k r v t, v.alone j k);
}

begun-Turned :
    {A : Type 0} (s : Static A) (c : Caller A) (a : A) → IsStatic s → Turned s c (s, tests_ins a)
begun-Turned s c a v = record {
  own = tt;
  static = v;
  kept = λ m. m;
  enters = λ k f. cc;
  same = λ k f. refl;
}

Step-IsOnce : {A : Type 0} {s t : System A} → Step s t → IsOnce s → IsOnce t
Step-IsOnce {s = s} (calls i a f) v =
    goes_on-IsOnce s i (s.static, tests_ins a) v (begun-Turned s.static (s.callers i) a v.static)
Step-IsOnce {s = s} (goes_on i) v =
    goes_on-IsOnce s i (turn s.static (s.callers i)) v
      (turn-Turned s.static (s.callers i) v.static (v.at i))

Reach-IsOnce : {A : Type 0} {s t : System A} → IsOnce s → Reach s t → IsOnce t
Reach-IsOnce v here = v
Reach-IsOnce v (next r st) = Step-IsOnce st (Reach-IsOnce v r)

-- A call that has returned got the object, not a null pointer, and `ins_` still points to it.
abbrev pub Gets : {A : Type 0} → Static A → Caller A → Type 0
Gets s outside = Unit {0}
Gets s (tests_ins a) = Unit {0}
Gets s (calls_once a) = Unit {0}
Gets s (constructs a) = Unit {0}
Gets s (assigns n) = Unit {0}
Gets s leaves = Unit {0}
Gets s reads = Unit {0}
Gets s (returned o) = (o ≡ some 0) × (s.ins ≡ some 0) × (length s.objects ≡ 1)

At-Gets : {A : Type 0} (s : Static A) (c : Caller A) → At s c → Gets s c
At-Gets s outside h = tt
At-Gets s (tests_ins a) h = tt
At-Gets s (calls_once a) h = tt
At-Gets s (constructs a) h = tt
At-Gets s (assigns n) h = tt
At-Gets s leaves h = tt
At-Gets s reads h = tt
At-Gets s (returned o) h = h

-- From the program's start, however the threads take turns: at most one object is made; and each
-- thread whose call has returned got that object, not a null pointer, and `ins_` points to it.
pub Reach-one :
    {A : Type 0} {t : System A} (i : ℕ)
    → Reach (begin A) t
    → (length t.static.objects ≤ 1) × Gets t.static (t.callers i)
Reach-one {A} {t} i r =
    let v =
      Reach-IsOnce
        (record {
          static = ((refl, refl), inl refl, omega arith);
          at = λ j. tt;
          alone = λ j k h l. cc;
        })
        r in
    (v.static.2, At-Gets t.static (t.callers i) (v.at i))

-- `~singleton` while `ins_` is set never ends.
pub destroy-none : {A : Type 0} (fuel n : ℕ) (s : Static A) → s.ins ≡ some n → destroy fuel s ≡ none
unfolding destroy
destroy-none zero n s e = refl
destroy-none (suc fuel) n s e =
    ap
      (λ o.
        if is_null o
        then some s
        else elim (destroy fuel s) [ none ↦ none | some s' ↦ some (record s' { ins = none }) ])
      e
    ∙ ap
        (λ (o : Option (Static _)). elim o [
          | none ↦ none
          | some s' ↦ some (record s' { ins = none })
        ])
        (destroy-none fuel n s e)
