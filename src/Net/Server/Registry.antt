-- ===== src/Net/Server/Registry.antt =====
-- Which sessions the server of engine/net/server_base.cpp knows, when each has its own identifier.
use cxxprogram.Prelude.{
  ==_iff, Bool, Bool-cases, List, Option, [], ap, arith, false, if◌then◌else◌, inl, inr, none, refl,
  some, subst, sym, ℕ, ◌==◌, ◌∙◌, ◌∷◌, ◌≡◌, ◌⊎◌,
}
use cxxprogram.Net.Server.{Session}
use cxxprogram.Net.Server.History.{Change, opens, closes, recent}

abbrev pub HasOpened : Session → List Change → Type 0
HasOpened s [] = ⊥
HasOpened s (opens t ∷ cs) = (s ≡ t) ⊎ HasOpened s cs
HasOpened s (closes t ∷ cs) = HasOpened s cs

abbrev pub HasClosed : Session → List Change → Type 0
HasClosed s [] = ⊥
HasClosed s (opens t ∷ cs) = HasClosed s cs
HasClosed s (closes t ∷ cs) = (s ≡ t) ⊎ HasClosed s cs

-- No change concerns that identifier.
abbrev pub IsNew : ℕ → List Change → Type 0
IsNew sid [] = Unit {0}
IsNew sid (opens t ∷ cs) = ((t.sid == sid) ≡ false) × IsNew sid cs
IsNew sid (closes t ∷ cs) = ((t.sid == sid) ≡ false) × IsNew sid cs

-- A session is opened under an identifier of its own; one ends that was opened, or that never was.
abbrev pub IsHistory : List Change → Type 0
IsHistory [] = Unit {0}
IsHistory (opens s ∷ cs) = IsNew s.sid cs × IsHistory cs
IsHistory (closes s ∷ cs) = (HasOpened s cs ⊎ IsNew s.sid cs) × IsHistory cs

pub new_opened :
    (sid : ℕ) (s : Session) (cs : List Change)
    → IsNew sid cs
    → HasOpened s cs
    → (s.sid == sid) ≡ false
new_opened sid s [] n o = absurd o
new_opened sid s (opens t ∷ cs) (e, n) (inl h) = ap (λ (u : Session). u.sid == sid) h ∙ e
new_opened sid s (opens t ∷ cs) (e, n) (inr o) = new_opened sid s cs n o
new_opened sid s (closes t ∷ cs) (e, n) o = new_opened sid s cs n o

new_closed : (s : Session) (cs : List Change) → IsNew s.sid cs → HasClosed s cs → ⊥
new_closed s [] n o = o
new_closed s (opens t ∷ cs) (e, n) o = new_closed s cs n o
new_closed s (closes t ∷ cs) (e, n) (inl h) = other s t h e
  where
    other : (a b : Session) → a ≡ b → (b.sid == a.sid) ≡ false → ⊥
    other a b k l = let same = ap (λ (u : Session). u.sid) k in ground arith
new_closed s (closes t ∷ cs) (e, n) (inr o) = new_closed s cs n o

-- An identifier is one session's.
same_sid :
    (s t : Session) (cs : List Change)
    → IsHistory cs
    → HasOpened s cs
    → HasOpened t cs
    → s.sid ≡ t.sid
    → s ≡ t
same_sid s t [] h o p e = absurd o
same_sid s t (opens u ∷ cs) (n, h) (inl o) (inl p) e = o ∙ sym p
same_sid s t (opens u ∷ cs) (n, h) (inl o) (inr p) e =
    let apart = new_opened u.sid t cs n p in
    let own = ap (λ (v : Session). v.sid) o in absurd (ground arith)
same_sid s t (opens u ∷ cs) (n, h) (inr o) (inl p) e =
    let apart = new_opened u.sid s cs n o in
    let own = ap (λ (v : Session). v.sid) p in absurd (ground arith)
same_sid s t (opens u ∷ cs) (n, h) (inr o) (inr p) e = same_sid s t cs h o p e
same_sid s t (closes u ∷ cs) (n, h) o p e = same_sid s t cs h o p e

-- What is known under the identifier of a session that was opened.
abbrev pub Knows : Session → List Change → Option Session → Type 0
Knows s cs o = (HasClosed s cs × (o ≡ none)) ⊎ ((HasClosed s cs → ⊥) × (o ≡ some s))

chosen : {A : Type 0} (x y : A) (a b : ℕ) → a ≡ b → (if a == b then x else y) ≡ x
chosen x y a b e = ground arith

passed_over : {A : Type 0} (x y : A) (a b : ℕ) → (b == a) ≡ false → (if a == b then x else y) ≡ y
passed_over x y a b e = ground arith

-- An end under the identifier of a session is its own.
closed_own :
    (s t : Session) (cs : List Change)
    → HasOpened t cs ⊎ IsNew t.sid cs
    → IsHistory cs
    → HasOpened s cs
    → s.sid ≡ t.sid
    → s ≡ t
closed_own s t cs (inl p) h o e = same_sid s t cs h o p e
closed_own s t cs (inr n) h o e = let apart = new_opened t.sid s cs n o in absurd (ground arith)

later :
    (s t : Session) (cs : List Change) (o : Option Session)
    → (t.sid == s.sid) ≡ false
    → Knows s cs o
    → Knows s (closes t ∷ cs) o
later s t cs o e (inl (c, k)) = inl (inr c, k)
later s t cs o e (inr (c, k)) = inr (stays, k)
  where
    stays : HasClosed s (closes t ∷ cs) → ⊥
    stays (inl same) = let sid = ap (λ (u : Session). u.sid) same in ground arith
    stays (inr d) = c d

pub recent-Knows :
    (s : Session) (cs : List Change) → IsHistory cs → HasOpened s cs → Knows s cs (recent s.sid cs)
recent-Knows s [] h o = absurd o
recent-Knows s (opens t ∷ cs) (n, h) (inl e) =
    subst (λ (u : Session). Knows u (opens t ∷ cs) (recent u.sid (opens t ∷ cs))) (sym e)
      (inr (new_closed t cs n, chosen (some t) (recent t.sid cs) t.sid t.sid refl))
recent-Knows s (opens t ∷ cs) (n, h) (inr o) =
    subst (Knows s cs)
      (sym (passed_over (some t) (recent s.sid cs) t.sid s.sid (new_opened t.sid s cs n o)))
      (recent-Knows s cs h o)
recent-Knows s (closes t ∷ cs) (n, h) o = elim (Bool-cases (t.sid == s.sid)) [
  | inl e ↦
      let sid : t.sid ≡ s.sid = (==_iff t.sid s.sid).0 e in
      inl (inl (closed_own s t cs n h o (sym sid)), chosen none (recent s.sid cs) t.sid s.sid sid)
  | inr e ↦
      subst (Knows s (closes t ∷ cs))
        (sym (ap (λ (b : Bool). if b then none else recent s.sid cs) e))
        (later s t cs (recent s.sid cs) e (recent-Knows s cs h o))
]
