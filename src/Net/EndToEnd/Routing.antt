-- ===== src/Net/EndToEnd/Routing.antt =====
-- The sessions that a server accepts and connects, and what it knows of them: tcp_listener.h and
-- server_base.cpp of engine/net together. `start` of a session calls `on_connect`, and the handler that
-- `close` posts calls `on_close`; a session's name is the number of its change.
mod Tests
use cxxprogram.Prelude.{
  >>=-eq-some, Bool, Bool-cases, List, Option, [], ap, arith, false, if◌then◌else◌, inl, inr,
  length, map, none, not, refl, some, some-inj, subst, sym, true, ℕ, ◌&&◌, ◌++◌, ◌<◌, ◌==◌, ◌∙◌,
  ◌∷◌, ◌≡◌, ◌≤◌, ◌⊎◌,
}
use cxxprogram.Net.Queue.{ConcurrentQueue}
use cxxprogram.Net.Session
use cxxprogram.Utils.Snowflake.Increasing.{IsSteady}
use cxxprogram.Net.Listener.{
  Shared, Pending, Listener, make_session, do_accept, accept_handler, close,
}
use cxxprogram.Net.Listener.Accepting.{
  IsServing, pending_sids, Descending, accept_handler-IsServing, make_session-Moved,
  Moved-IsServing, top,
}
use cxxprogram.Net.Server.{Packet, Server, Session as Handle, get_session}
use cxxprogram.Net.Server.History.{Change, opens, closes, change_all, change_all_lem}
use cxxprogram.Net.Server.Registry.{HasOpened, IsNew, IsHistory, Knows, recent-Knows, new_opened}
use cxxprogram.Net.EndToEnd.Identifiers.{
  AllBelow, AllBelow-IsNew, AllBelow-le, IsWaiting, IsWaiting-nil, IsWaiting-opens, accept_cases,
  gt_apart, lt_apart, opened_below, waiting_below,
}

-- The session of that identifier, as the server gets it.
abbrev pub named : ℕ → List Change → Handle
named sid cs = record { sid = sid; name = length cs }

-- What becomes of a session that was accepted: it is started, if the acceptor is open and the accept
-- went well.
abbrev pub after_accept : Listener → Pending → Bool → List Change → List Change
after_accept l session error cs =
    if l.is_open && not error then opens (named session.sid cs) ∷ cs else cs

-- What becomes of one that the server connects, in the call: it is started, if it is connected. Where
-- it is refused, `close` posts a handler, whose call of `on_close` is a step of its own.
abbrev pub after_connect : ℕ → Bool → List Change → List Change
after_connect sid ok cs = if ok then opens (named sid cs) ∷ cs else cs

module _ (clock : ℕ → ℕ) (fuel : ℕ) where
  pub data Step (h : Shared) (l : Listener) (cs : List Change)
      : Shared → Listener → List Change → Type 0 where
    accepts :
        (session : Pending) (error : Bool) {h' : Shared} {l' : Listener}
        → l.accepting ≡ some session
        → accept_handler clock fuel h l session error ≡ some (h', l')
        → Step h l cs h' l' (after_accept l session error cs)
    connects :
        (resolved accepted : Bool) {session : Pending} {h' : Shared}
        → make_session clock fuel h ≡ some (session, h')
        → Step h l cs h' l
            (after_connect session.sid (Session.connect Session.fresh resolved accepted).0 cs)
    -- The handler of `close` runs in a session that was made and never started, as one that was
    -- refused: with any identifier that was given out, of which nothing has been told and which is
    -- not that of the accept under way, at any later time; that the session was refused is not asked.
    refused_ends :
        (s : Handle)
        → s.sid < top clock fuel h.id_generate
        → IsNew s.sid cs
        → ((p : Pending) → l.accepting ≡ some p → (s.sid == p.sid) ≡ false)
        → Step h l cs h l (closes s ∷ cs)
    -- A session that was started ends, for whatever reason.
    ends : (s : Handle) → HasOpened s cs → Step h l cs h l (closes s ∷ cs)

  pub data Reach (h : Shared) (l : Listener) : Shared → Listener → List Change → Type 0 where
    here : Reach h l h l []
    next :
        {h' h'' : Shared} {l' l'' : Listener} {cs cs' : List Change}
        → Reach h l h' l' cs
        → Step h' l' cs h'' l'' cs'
        → Reach h l h'' l'' cs'

  record IsRouted (h : Shared) (l : Listener) (cs : List Change) : Type 0 where
    serving : IsServing clock fuel h l
    below : AllBelow (top clock fuel h.id_generate) cs
    waiting : IsWaiting l.accepting cs
    history : IsHistory cs

  accepts-IsRouted :
      (h : Shared) (l : Listener) (cs : List Change) (session : Pending) (error : Bool)
      {h' : Shared} {l' : Listener}
      → IsSteady clock
      → IsRouted h l cs
      → l.accepting ≡ some session
      → accept_handler clock fuel h l session error ≡ some (h', l')
      → IsRouted h' l' (after_accept l session error cs)
  accepts-IsRouted h l cs session error {h'} {l'} v w p e =
      let served = accept_handler-IsServing clock fuel h l session error v w.serving p e in
      elim (accept_cases clock fuel h l session error e) [
        | inl (shut, same, none_left) ↦
            subst
              (λ (b : Bool). IsRouted h' l' (if b then opens (named session.sid cs) ∷ cs else cs))
              (sym shut)
              (record {
                serving = served;
                below = subst (λ k. AllBelow (top clock fuel k.id_generate) cs) (sym same) w.below;
                waiting = subst (λ o. IsWaiting o cs) (sym none_left) tt;
                history = w.history;
              })
        | inr (starts, (q, m, new)) ↦
            let t = make_session-Moved clock fuel h v w.serving.ready w.serving.noted m in
            let small = waiting_below clock fuel h l w.serving p in
            let after : AllBelow q.sid cs = AllBelow-le _ q.sid cs t.above w.below in
            subst
              (λ (b : Bool). IsRouted h' l' (if b then opens (named session.sid cs) ∷ cs else cs))
              (sym starts)
              (record {
                serving = served;
                below = (
                  omega (arith, small, t.above, t.latest),
                  AllBelow-le q.sid _ cs (omega (arith, t.latest)) after,
                );
                waiting =
                    subst (λ o. IsWaiting o (opens (named session.sid cs) ∷ cs)) (sym new)
                      (lt_apart _ _ (omega (arith, small, t.above)), AllBelow-IsNew q.sid cs after);
                history = (subst (λ o. IsWaiting o cs) p w.waiting, w.history);
              })
      ]

  connects-IsRouted :
      (h : Shared) (l : Listener) (cs : List Change) (ok : Bool) {session : Pending} {h' : Shared}
      → IsSteady clock
      → IsRouted h l cs
      → make_session clock fuel h ≡ some (session, h')
      → IsRouted h' l (after_connect session.sid ok cs)
  connects-IsRouted h l cs ok {session} {h'} v w e =
      let t = make_session-Moved clock fuel h v w.serving.ready w.serving.noted e in
      let served = Moved-IsServing clock fuel h session.sid h' l t w.serving.descending in
      let new : IsNew session.sid cs =
        AllBelow-IsNew session.sid cs (AllBelow-le _ session.sid cs t.above w.below) in
      let below : AllBelow (top clock fuel h'.id_generate) cs =
        AllBelow-le _ _ cs (omega (arith, t.above, t.latest)) w.below in
      elim (Bool-cases ok) [
        | inl y ↦
            subst
              (λ (b : Bool). IsRouted h' l (if b then opens (named session.sid cs) ∷ cs else cs))
              (sym y)
              (record {
                serving = served;
                below = (omega (arith, t.latest), below);
                waiting =
                    (IsWaiting-opens l.accepting (named session.sid cs) cs
                      (λ q k.
                        gt_apart _ _
                          (omega (arith, waiting_below clock fuel h l w.serving k, t.above)))
                      w.waiting).0;
                history = (new, w.history);
              })
        | inr n ↦
            subst
              (λ (b : Bool). IsRouted h' l (if b then opens (named session.sid cs) ∷ cs else cs))
              (sym n)
              (record { serving = served; below = below; waiting = w.waiting; history = w.history })
      ]

  Step-IsRouted :
      {h h' : Shared} {l l' : Listener} {cs cs' : List Change}
      → IsSteady clock
      → Step h l cs h' l' cs'
      → IsRouted h l cs
      → IsRouted h' l' cs'
  Step-IsRouted v (accepts session error p e) w = accepts-IsRouted _ _ _ session error v w p e
  Step-IsRouted v (connects resolved accepted e) w =
      connects-IsRouted _ _ _ (Session.connect Session.fresh resolved accepted).0 v w e
  Step-IsRouted {l = l} {cs = cs} v (refused_ends s made new apart) w = record {
    serving = w.serving;
    below = (made, w.below);
    waiting = (IsWaiting-opens l.accepting s cs apart w.waiting).1;
    history = (inr new, w.history);
  }
  Step-IsRouted {h = h} {l = l} {cs = cs} v (ends s o) w = record {
    serving = w.serving;
    below = (opened_below (top clock fuel h.id_generate) s cs w.below o, w.below);
    waiting =
        (IsWaiting-opens l.accepting s cs
          (λ p e. new_opened p.sid s cs (subst (λ o. IsWaiting o cs) e w.waiting) o) w.waiting).1;
    history = (inl o, w.history);
  }

  Reach-IsRouted :
      {h : Shared} {l : Listener} {h' : Shared} {l' : Listener} {cs : List Change}
      → IsSteady clock
      → IsServing clock fuel h l
      → Reach h l h' l' cs
      → IsRouted h' l' cs
  Reach-IsRouted {l = l} v w here = record {
    serving = w;
    below = tt;
    waiting = IsWaiting-nil l.accepting;
    history = tt;
  }
  Reach-IsRouted v w (next r st) = Step-IsRouted v st (Reach-IsRouted v w r)

  -- From a server without sessions and a listener that is as it should be, with a clock that does not
  -- go back: however accepts, connections and ends follow one another, a session that was started is
  -- what the server has under its identifier until its end is told, and then there is nothing; no other
  -- session's start or end, nor the end of a refused connection, changes that.
  pub Reach-Knows :
      (P : ConcurrentQueue Packet) (v : Server P) {h h' : Shared} {l l' : Listener}
      {cs : List Change} (s : Handle)
      → IsSteady clock
      → IsServing clock fuel h l
      → v.sessions ≡ []
      → Reach h l h' l' cs
      → HasOpened s cs
      → Knows s cs (get_session P (change_all P v cs) s.sid)
  Reach-Knows P v {cs = cs} s c w e r o =
      subst (Knows s cs) (sym (change_all_lem P v cs s.sid e).0)
        (recent-Knows s cs (Reach-IsRouted c w r).history o)
