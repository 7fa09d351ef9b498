-- ===== src/Net/Listener/Accepting.antt =====
-- The sessions that a listener of engine/net/tcp_listener.h makes.
use cxxprogram.Prelude.{
  >>=-eq-some, Bool, List, Option, [], ap, arith, false, inl, inr, map, none, refl, some, some-inj,
  subst, suc, sym, true, ℕ, ◌&&◌, ◌++◌, ◌<◌, ◌∙◌, ◌∷◌, ◌≡◌, ◌≤◌, ◌⊎◌,
}
use cxxprogram.Prelude.Int.{ℤ, pos, negsuc}
use cxxprogram.Net.ContextPool.{ContextPool}
use cxxprogram.Net.ContextPool
use cxxprogram.Utils.Snowflake.{Snowflake, compose}
use cxxprogram.Utils.Snowflake
use cxxprogram.Utils.Snowflake.Layout.{IsTime}
use cxxprogram.Utils.Snowflake.Increasing.{IsSteady, IsReady, next-Issued, Issued, Issued-lt}
use cxxprogram.Net.Session
use cxxprogram.Net.Listener.{
  Shared, Pending, Listener, Answers, close, make_session, do_accept, listen, accept_handler,
  server_connect,
}

-- Whether a `listen` on a closed acceptor goes through.
abbrev pub passes : Answers → Bool
passes a = a.resolves && (a.opens && (a.binds && a.listens))

module _ (clock : ℕ → ℕ) (fuel : ℕ) where
  abbrev Listened : Shared → Listener → Answers → Pending → Shared → Type 0
  Listened h l a session h' =
      ((l.is_open ≡ true) × (listen clock fuel h l a ≡ some (true, h, l)))
      ⊎ ((l.is_open ≡ false)
          × (passes a ≡ true)
          × (listen clock fuel h l a
              ≡ some (true, h', record l { is_open = true; accepting = some session })))
      ⊎ ((l.is_open ≡ false)
          × (passes a ≡ false)
          × (listen clock fuel h l a ≡ some (false, h, record l { is_open = false })))

  listen_cases :
      (h : Shared) (o : Option Pending) (ps : List Pending) (is_open r p b n : Bool)
      {session : Pending} {h' : Shared}
      → make_session clock fuel h ≡ some (session, h')
      → Listened h
          (record { is_open = is_open; accepting = o; started = ps })
          (record { resolves = r; opens = p; binds = b; listens = n })
          session
          h'
  unfolding listen do_accept close
  listen_cases h o ps true r p b n m = inl (refl, refl)
  listen_cases h o ps false false p b n m = inr (inr (refl, refl, refl))
  listen_cases h o ps false true false b n m = inr (inr (refl, refl, refl))
  listen_cases h o ps false true true false n m = inr (inr (refl, refl, refl))
  listen_cases h o ps false true true true false m = inr (inr (refl, refl, refl))
  listen_cases h o ps false true true true true m = inr (inl (refl, refl, rw m refl))

  -- Where a session can be made, `listen` answers true just if the acceptor was open or every call
  -- goes through. In the second case a session waits to be accepted; after a failure the acceptor
  -- is closed and nothing has been taken from the pool or the generator.
  pub listen_lem :
      (h : Shared) (l : Listener) (a : Answers) {session : Pending} {h' : Shared}
      → make_session clock fuel h ≡ some (session, h')
      → ((l.is_open ≡ true) × (listen clock fuel h l a ≡ some (true, h, l)))
        ⊎ ((l.is_open ≡ false)
            × (passes a ≡ true)
            × (listen clock fuel h l a
                ≡ some (true, h', record l { is_open = true; accepting = some session })))
        ⊎ ((l.is_open ≡ false)
            × (passes a ≡ false)
            × (listen clock fuel h l a ≡ some (false, h, record l { is_open = false })))
  listen_lem h l a m =
      listen_cases h l.accepting l.started l.is_open a.resolves a.opens a.binds a.listens m

  -- A bound of all identifiers so far: one more than the last one.
  abbrev pub top_of : Snowflake → ℤ → ℕ
  top_of s (pos t) = suc (compose s t)
  top_of s (negsuc t) = 0

  abbrev pub top : Snowflake → ℕ
  top s = top_of s s.last_timestamp

  abbrev pub IsNoted : ℤ → Type 0
  IsNoted (pos t) = IsTime t
  IsNoted (negsuc t) = Unit {0}

  top-le :
      (s : Snowflake) (last : ℤ) {id : ℕ} {s' : Snowflake}
      → s.last_timestamp ≡ last
      → IsNoted last
      → IsReady clock s
      → Issued clock s id s'
      → top_of s last ≤ id
  top-le s (pos t) e n r i = Issued-lt clock s t _ _ n r.configured e i
  top-le s (negsuc t) e n r i = omega arith

  -- Each is less than the one before, and the first less than `hi`.
  abbrev pub Descending : ℕ → List ℕ → Type 0
  Descending hi [] = Unit {0}
  Descending hi (x ∷ xs) = (x < hi) × Descending x xs

  Descending-le : (hi lo : ℕ) (xs : List ℕ) → lo ≤ hi → Descending lo xs → Descending hi xs
  Descending-le hi lo [] h d = tt
  Descending-le hi lo (x ∷ xs) h (l, d) = (omega arith, d)

  abbrev pub pending_sids : Option Pending → List ℕ
  pending_sids none = []
  pending_sids (some p) = p.sid ∷ []

  -- The identifiers of a listener's sessions, the latest first.
  abbrev pub sids : Listener → List ℕ
  sids l = pending_sids l.accepting ++ map (λ (p : Pending). p.sid) l.started

  pub record IsServing (h : Shared) (l : Listener) : Type 0 where
    pub ready : IsReady clock h.id_generate
    pub noted : IsNoted h.id_generate.last_timestamp
    pub descending : Descending (top h.id_generate) (sids l)

  -- What is shared has moved on by one identifier.
  pub record Moved (h : Shared) (sid : ℕ) (h' : Shared) : Type 0 where
    pub is_ready : IsReady clock h'.id_generate
    pub is_noted : IsNoted h'.id_generate.last_timestamp
    pub above : top h.id_generate ≤ sid
    pub latest : top h'.id_generate ≡ suc sid

  Issued-Moved :
      (h : Shared) (pool : ContextPool) {sid : ℕ} {s' : Snowflake}
      → IsReady clock h.id_generate
      → IsNoted h.id_generate.last_timestamp
      → Issued clock h.id_generate sid s'
      → Moved h sid (record { context_pool = pool; id_generate = s' })
  Issued-Moved h pool {sid} {s'} r n i = record {
    is_ready = i.ready;
    is_noted = subst IsNoted (sym i.noted) i.in_range;
    above = top-le h.id_generate h.id_generate.last_timestamp refl n r i;
    latest = ap (top_of s') i.noted ∙ ap suc (sym i.composed);
  }

  pub make_session-Moved :
      (h : Shared) {session : Pending} {h' : Shared}
      → IsSteady clock
      → IsReady clock h.id_generate
      → IsNoted h.id_generate.last_timestamp
      → make_session clock fuel h ≡ some (session, h')
      → Moved h session.sid h'
  unfolding make_session
  make_session-Moved h {session} {h'} v r n e =
      let ((context, pool), p, e1) = >>=-eq-some (ContextPool.next h.context_pool) _ e in
      let ((sid, generator), i, e2) = >>=-eq-some (Snowflake.next clock fuel h.id_generate) _ e1 in
      let made = some-inj _ _ e2 in
      subst (λ (m : Pending × Shared). Moved h m.0.sid m.1) made
        (Issued-Moved h pool r n (next-Issued clock fuel h.id_generate v r i))

  -- An accept ends, well or not; or the server connects, with the same generator.
  pub data Step (h : Shared) (l : Listener) : Shared → Listener → Type 0 where
    accepts :
        (session : Pending) (error : Bool) {h' : Shared} {l' : Listener}
        → l.accepting ≡ some session
        → accept_handler clock fuel h l session error ≡ some (h', l')
        → Step h l h' l'
    connects :
        (is_tcp resolved accepted : Bool) {id : ℕ} {h' : Shared} {s : Option Session.Session}
        → server_connect clock fuel h is_tcp resolved accepted ≡ some (id, h', s)
        → Step h l h' l

  pub data Reach (h : Shared) (l : Listener) : Shared → Listener → Type 0 where
    here : Reach h l h l
    next :
        {h' h'' : Shared} {l' l'' : Listener}
        → Reach h l h' l'
        → Step h' l' h'' l''
        → Reach h l h'' l''

  pub Moved-IsServing :
      (h : Shared) (sid : ℕ) (h' : Shared) (l : Listener)
      → Moved h sid h'
      → Descending (top h.id_generate) (sids l)
      → IsServing h' l
  Moved-IsServing h sid h' l m d = record {
    ready = m.is_ready;
    noted = m.is_noted;
    descending =
        Descending-le (top h'.id_generate) (top h.id_generate) (sids l)
          (omega (arith, m.above, m.latest)) d;
  }

  -- The session that is not accepted is given up.
  dropped :
      (h : Shared) (ps : List Pending) (is_open : Bool) (session : Pending)
      → IsServing h (record { is_open = is_open; accepting = some session; started = ps })
      → IsServing h (record { is_open = false; accepting = none; started = ps })
  dropped h ps is_open session w = record {
    ready = w.ready;
    noted = w.noted;
    descending =
        Descending-le (top h.id_generate) session.sid (map (λ (q : Pending). q.sid) ps)
          (omega (arith, w.descending.0)) w.descending.1;
  }

  handled :
      (h : Shared) (ps : List Pending) (is_open error : Bool) (session : Pending) {h' : Shared}
      {l' : Listener}
      → IsSteady clock
      → IsServing h (record { is_open = is_open; accepting = some session; started = ps })
      → accept_handler clock fuel h
          (record { is_open = is_open; accepting = some session; started = ps })
          session
          error
        ≡ some (h', l')
      → IsServing h' l'
  unfolding accept_handler close do_accept
  handled h ps false error session v w e =
      subst (λ (r : Shared × Listener). IsServing r.0 r.1) (some-inj _ _ e)
        (dropped h ps _ session w)
  handled h ps true true session v w e =
      subst (λ (r : Shared × Listener). IsServing r.0 r.1) (some-inj _ _ e)
        (dropped h ps _ session w)
  handled h ps true false session v w e =
      let ((s, h1), m, e1) = >>=-eq-some (make_session clock fuel h) _ e in
      let moved = make_session-Moved h v w.ready w.noted m in
      subst (λ (r : Shared × Listener). IsServing r.0 r.1) (some-inj _ _ e1)
        (record {
          ready = moved.is_ready;
          noted = moved.is_noted;
          descending = (
            omega (arith, moved.latest),
            Descending-le s.sid (top h.id_generate) (session.sid ∷ map (λ (q : Pending). q.sid) ps)
                moved.above w.descending,
          );
        })

  pub accept_handler-IsServing :
      (h : Shared) (l : Listener) (session : Pending) (error : Bool) {h' : Shared} {l' : Listener}
      → IsSteady clock
      → IsServing h l
      → l.accepting ≡ some session
      → accept_handler clock fuel h l session error ≡ some (h', l')
      → IsServing h' l'
  unfolding accept_handler
  accept_handler-IsServing h l session error v w p e =
      handled h l.started l.is_open error session v
        (record {
          ready = w.ready;
          noted = w.noted;
          descending =
              subst
                (λ o.
                  Descending (top h.id_generate)
                    (pending_sids o ++ map (λ (q : Pending). q.sid) l.started))
                p w.descending;
        })
        e

  server_connect-IsServing :
      (h : Shared) (l : Listener) (is_tcp resolved accepted : Bool) {id : ℕ} {h' : Shared}
      {s : Option Session.Session}
      → IsSteady clock
      → IsServing h l
      → server_connect clock fuel h is_tcp resolved accepted ≡ some (id, h', s)
      → IsServing h' l
  unfolding server_connect
  server_connect-IsServing h l false resolved accepted v w e =
      subst (λ (r : ℕ × Shared × Option Session.Session). IsServing r.1 l) (some-inj _ _ e) w
  server_connect-IsServing h l true resolved accepted v w e =
      let ((s, h1), m, e1) = >>=-eq-some (make_session clock fuel h) _ e in
      subst (λ (r : ℕ × Shared × Option Session.Session). IsServing r.1 l) (some-inj _ _ e1)
        (Moved-IsServing h s.sid h1 l (make_session-Moved h v w.ready w.noted m) w.descending)

  -- However accepts, failed accepts and connections of the server follow one another: the
  -- identifiers of a listener's sessions are all different, each larger than those before it, and
  -- the generator stays ready to give a larger one.
  pub Reach-Descending :
      {h : Shared} {l : Listener} {h' : Shared} {l' : Listener}
      → IsSteady clock
      → IsServing h l
      → Reach h l h' l'
      → IsServing h' l'
  Reach-Descending v w here = w
  Reach-Descending v w (next r (accepts session error p e)) =
      accept_handler-IsServing _ _ session error v (Reach-Descending v w r) p e
  Reach-Descending v w (next r (connects t c a e)) =
      server_connect-IsServing _ _ t c a v (Reach-Descending v w r) e
