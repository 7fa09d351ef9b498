-- ===== src/Net/EndToEnd/Identifiers.antt =====
-- The identifiers of the sessions that a server starts, and how an accept ends: tcp_listener.h and
-- server_base.cpp of engine/net.
use cxxprogram.Prelude.{
  >>=-eq-some, Bool, List, Option, [], ap, arith, false, inl, inr, map, none, not, refl, some,
  some-inj, subst, sym, true, ℕ, ◌&&◌, ◌++◌, ◌<◌, ◌==◌, ◌∙◌, ◌∷◌, ◌≡◌, ◌≤◌, ◌⊎◌,
}
use cxxprogram.Net.Queue.{}
use cxxprogram.Utils.Snowflake.Increasing.{}
use cxxprogram.Net.Listener.{
  Shared, Pending, Listener, make_session, do_accept, accept_handler, close,
}
use cxxprogram.Net.Listener.Accepting.{IsServing, pending_sids, Descending, top}
use cxxprogram.Net.Server.{Session as Handle}
use cxxprogram.Net.Server.History.{Change, opens, closes}
use cxxprogram.Net.Server.Registry.{HasOpened, IsNew}

pub lt_apart : (a b : ℕ) → a < b → (a == b) ≡ false
lt_apart a b h = ground arith

pub gt_apart : (a b : ℕ) → b < a → (a == b) ≡ false
gt_apart a b h = ground arith

-- The identifiers of all changes are below a bound.
abbrev pub AllBelow : ℕ → List Change → Type 0
AllBelow n [] = Unit {0}
AllBelow n (opens s ∷ cs) = (s.sid < n) × AllBelow n cs
AllBelow n (closes s ∷ cs) = (s.sid < n) × AllBelow n cs

pub AllBelow-le : (n m : ℕ) (cs : List Change) → n ≤ m → AllBelow n cs → AllBelow m cs
AllBelow-le n m [] h b = tt
AllBelow-le n m (opens s ∷ cs) h (l, b) = (omega arith, AllBelow-le n m cs h b)
AllBelow-le n m (closes s ∷ cs) h (l, b) = (omega arith, AllBelow-le n m cs h b)

pub AllBelow-IsNew : (n : ℕ) (cs : List Change) → AllBelow n cs → IsNew n cs
AllBelow-IsNew n [] b = tt
AllBelow-IsNew n (opens s ∷ cs) (l, b) = (ground arith, AllBelow-IsNew n cs b)
AllBelow-IsNew n (closes s ∷ cs) (l, b) = (ground arith, AllBelow-IsNew n cs b)

-- No change concerns the session that waits to be accepted.
abbrev pub IsWaiting : Option Pending → List Change → Type 0
IsWaiting none cs = Unit {0}
IsWaiting (some p) cs = IsNew p.sid cs

pub IsWaiting-nil : (o : Option Pending) → IsWaiting o []
IsWaiting-nil none = tt
IsWaiting-nil (some p) = tt

-- A change of another session's.
pub IsWaiting-opens :
    (o : Option Pending) (s : Handle) (cs : List Change)
    → ((p : Pending) → o ≡ some p → (s.sid == p.sid) ≡ false)
    → IsWaiting o cs
    → IsWaiting o (opens s ∷ cs) × IsWaiting o (closes s ∷ cs)
IsWaiting-opens none s cs a w = (tt, tt)
IsWaiting-opens (some p) s cs a w = let e = a p refl in ((e, w), (e, w))

pub opened_below :
    (n : ℕ) (s : Handle) (cs : List Change) → AllBelow n cs → HasOpened s cs → s.sid < n
opened_below n s [] b o = absurd o
opened_below n s (opens t ∷ cs) (l, b) (inl e) = omega (arith, ap (λ (u : Handle). u.sid) e)
opened_below n s (opens t ∷ cs) (l, b) (inr o) = opened_below n s cs b o
opened_below n s (closes t ∷ cs) (l, b) o = opened_below n s cs b o

module _ (clock : ℕ → ℕ) (fuel : ℕ) where
  -- How an accept ends.
  pub accept_cases :
      (h : Shared) (l : Listener) (session : Pending) (error : Bool) {h' : Shared} {l' : Listener}
      → accept_handler clock fuel h l session error ≡ some (h', l')
      → ((l.is_open && not error ≡ false) × (h' ≡ h) × (l'.accepting ≡ none))
        ⊎ ((l.is_open && not error ≡ true)
            × ((p : Pending) × (make_session clock fuel h ≡ some (p, h'))
                × (l'.accepting ≡ some p)))
  unfolding accept_handler close do_accept
  accept_cases h l session error {h'} {l'} e = go l.is_open error l.accepting l.started e
    where
      go :
          (is_open error : Bool) (o : Option Pending) (ps : List Pending)
          → accept_handler clock fuel h
              (record { is_open = is_open; accepting = o; started = ps })
              session
              error
            ≡ some (h', l')
          → ((is_open && not error ≡ false) × (h' ≡ h) × (l'.accepting ≡ none))
            ⊎ ((is_open && not error ≡ true)
                × ((p : Pending) × (make_session clock fuel h ≡ some (p, h'))
                    × (l'.accepting ≡ some p)))
      go false error o ps e =
          let r = some-inj _ _ e in
          inl (
            refl,
            sym (ap (λ (x : Shared × Listener). x.0) r),
            sym (ap (λ (x : Shared × Listener). x.1.accepting) r),
          )
      go true true o ps e =
          let r = some-inj _ _ e in
          inl (
            refl,
            sym (ap (λ (x : Shared × Listener). x.0) r),
            sym (ap (λ (x : Shared × Listener). x.1.accepting) r),
          )
      go true false o ps e =
          let ((p, h₁), m, e₁) = >>=-eq-some (make_session clock fuel h) _ e in
          let r = some-inj _ _ e₁ in
          inr (
            refl,
            (
              p,
              m ∙ ap (λ (x : Shared × Listener). some (p, x.0)) r,
              sym (ap (λ (x : Shared × Listener). x.1.accepting) r),
            ),
          )

  pub waiting_below :
      (h : Shared) (l : Listener) {p : Pending}
      → IsServing clock fuel h l
      → l.accepting ≡ some p
      → p.sid < top clock fuel h.id_generate
  waiting_below h l w e =
      (subst
        (λ o.
          Descending clock fuel (top clock fuel h.id_generate)
            (pending_sids clock fuel o ++ map (λ (q : Pending). q.sid) l.started))
        e w.descending).0
