-- ===== src/Utils/Singleton/Making/Access.antt =====
-- What a thread at engine/utils/singleton.hpp relies on where it is, and what one access keeps.
use cxxprogram.Prelude.{
  Bool, Option, [], ap, arith, false, if◌then◌else◌, inl, inr, length, none, refl, some, subst, sym,
  true, ℕ, ◌++◌, ◌∙◌, ◌∷◌, ◌≡◌, ◌≤◌, ◌⊎◌,
}
use cxxprogram.Utils.Singleton.{
  OnceFlag, not_called, active, called, Static, Caller, outside, tests_ins, calls_once, constructs,
  assigns, leaves, reads, returned, is_null, turn,
}

-- The object is there.
abbrev Made : {A : Type 0} → Static A → Type 0
Made s = (s.ins ≡ some 0) × (length s.objects ≡ 1)

abbrev Unmade : {A : Type 0} → Static A → Type 0
Unmade s = (s.ins ≡ none) × (s.objects ≡ [])

-- What a thread relies on where it is.
abbrev pub At : {A : Type 0} → Static A → Caller A → Type 0
At s outside = Unit {0}
At s (tests_ins a) = Unit {0}
At s (calls_once a) = Unit {0}
At s (constructs a) = (s.once ≡ active) × Unmade s
At s (assigns n) = (s.once ≡ active) × (n ≡ 0) × (s.ins ≡ none) × (length s.objects ≡ 1)
At s leaves = (s.once ≡ active) × Made s
At s reads = Made s
At s (returned o) = (o ≡ some 0) × (s.ins ≡ some 0) × (length s.objects ≡ 1)

abbrev pub is_inside : {A : Type 0} → Caller A → Bool
is_inside outside = false
is_inside (tests_ins a) = false
is_inside (calls_once a) = false
is_inside (constructs a) = true
is_inside (assigns n) = true
is_inside leaves = true
is_inside reads = false
is_inside (returned o) = false

-- What the flag says of the object, while no thread is in the function; and how many there are.
abbrev Says : {A : Type 0} → Static A → OnceFlag → Type 0
Says s not_called = Unmade s
Says s active = Unit {0}
Says s called = Made s

abbrev pub IsStatic : {A : Type 0} → Static A → Type 0
IsStatic s = Says s s.once × ((s.ins ≡ none) ⊎ Made s) × (length s.objects ≤ 1)

pub inside-active :
    {A : Type 0} (s : Static A) (c : Caller A) → At s c → is_inside c ≡ true → s.once ≡ active
inside-active s outside h e = cc
inside-active s (tests_ins a) h e = cc
inside-active s (calls_once a) h e = cc
inside-active s (constructs a) h e = h.0
inside-active s (assigns n) h e = h.0
inside-active s leaves h e = h.0
inside-active s reads h e = cc
inside-active s (returned o) h e = cc

-- A thread that is not in the function does not mind what others do, as long as the object stays.
pub At-other :
    {A : Type 0} (s t : Static A) (c : Caller A)
    → is_inside c ≡ false
    → (Made s → Made t)
    → At s c
    → At t c
At-other s t outside n k h = tt
At-other s t (tests_ins a) n k h = tt
At-other s t (calls_once a) n k h = tt
At-other s t (constructs a) n k h = cc
At-other s t (assigns m) n k h = cc
At-other s t leaves n k h = cc
At-other s t reads n k h = k h
At-other s t (returned o) n k h = let m = k (h.1, h.2) in (h.0, m.0, m.1)

-- What one access does: the thread's own part, the others', and that it does not come in beside one
-- that is in.
pub record Turned {A : Type 0} (s : Static A) (c : Caller A) (r : Static A × Caller A)
    : Type 0 where
  pub own : At r.0 r.1
  pub static : IsStatic r.0
  pub kept : Made s → Made r.0
  pub enters : is_inside r.1 ≡ true → is_inside c ≡ false → s.once ≡ not_called
  pub same : is_inside c ≡ false → s.once ≡ active → r.0 ≡ s

Unmade-Made : {A : Type 0} {B : Type 0} (s : Static A) → s.ins ≡ none → Made s → B
Unmade-Made s u m = cc (sym u ∙ m.0)

pub turn-Turned :
    {A : Type 0} (s : Static A) (c : Caller A) → IsStatic s → At s c → Turned s c (turn s c)
unfolding turn
turn-Turned s outside v h = record {
  own = h;
  static = v;
  kept = λ m. m;
  enters = λ e f. cc;
  same = λ e f. refl;
}
turn-Turned s (tests_ins a) v h = go s.ins refl v.1
  where
    go :
        (o : Option ℕ)
        → s.ins ≡ o
        → (s.ins ≡ none) ⊎ Made s
        → Turned s (tests_ins a) (s, if is_null o then calls_once a else reads)
    go none e w = record {
      own = tt;
      static = v;
      kept = λ m. m;
      enters = λ k f. cc;
      same = λ k f. refl;
    }
    go (some n) e (inl u) = cc
    go (some n) e (inr m) = record {
      own = m;
      static = v;
      kept = λ k. k;
      enters = λ k f. cc;
      same = λ k f. refl;
    }
turn-Turned s (calls_once a) v h = go s.once refl
  where
    run :
        (f : OnceFlag)
        → s.once ≡ f
        → turn s (calls_once a) ≡ elim f [
          | not_called ↦ (record s { once = active }, constructs a)
          | active ↦ (s, calls_once a)
          | called ↦ (s, reads)
        ]
    run f e = rw (e, turn) refl

    go : (f : OnceFlag) → s.once ≡ f → Turned s (calls_once a) (turn s (calls_once a))
    go not_called e =
        let u : Unmade s = subst (Says s) e v.0 in
        subst (Turned s (calls_once a)) (sym (run not_called e)) (record {
          own = (refl, u);
          static = (tt, inl u.0, v.2);
          kept = λ m. Unmade-Made s u.0 m;
          enters = λ k f. e;
          same = λ k f. cc;
        })
    go active e =
        subst (Turned s (calls_once a)) (sym (run active e))
          (record { own = tt; static = v; kept = λ m. m; enters = λ k f. cc; same = λ k f. refl })
    go called e =
        let m : Made s = subst (Says s) e v.0 in
        subst (Turned s (calls_once a)) (sym (run called e))
          (record { own = m; static = v; kept = λ k. k; enters = λ k f. cc; same = λ k f. refl })
turn-Turned s (constructs a) v (e, (u, o)) = record {
  own = (e, ap length o, u, ap (λ l. length (l ++ a ∷ [])) o);
  static = (
    subst (Says (record s { objects = s.objects ++ a ∷ [] })) (sym e) tt,
    inl u,
    omega (arith, ap (λ l. length (l ++ a ∷ [])) o),
  );
  kept = λ m. Unmade-Made s u m;
  enters = λ k f. cc;
  same = λ k f. cc;
}
turn-Turned s (assigns n) v (e, z, u, o) = record {
  own = (e, (ap some z, o));
  static =
      (subst (Says (record s { ins = some n })) (sym e) tt, inr (ap some z, o), omega (arith, o));
  kept = λ m. Unmade-Made s u m;
  enters = λ k f. cc;
  same = λ k f. cc;
}
turn-Turned s leaves v (e, m) = record {
  own = m;
  static = (m, inr m, v.2);
  kept = λ k. k;
  enters = λ k f. cc;
  same = λ k f. cc;
}
turn-Turned s reads v h = record {
  own = (h.0, h.0, h.1);
  static = v;
  kept = λ m. m;
  enters = λ e f. cc;
  same = λ e f. refl;
}
turn-Turned s (returned o) v h = record {
  own = h;
  static = v;
  kept = λ m. m;
  enters = λ e f. cc;
  same = λ e f. refl;
}
