-- ===== src/Redis/Connect/Faults.antt =====
-- What the methods of engine/redis/redis_connect.cpp answer, their error branches included.
use cxxprogram.Prelude.{
  Bool-cases, Option, Option-cases, ap, arith, false, if◌then◌else◌, inl, inr, none, refl, some,
  subst, sym, true, ℕ, ◌+◌, ◌>>=◌, ◌==◌, ◌≡◌, ◌≢◌, ◌⊎◌,
}
use cxxprogram.Redis.Command.{Command}
use cxxprogram.Redis.Result.{Reply}
use cxxprogram.Redis.Connect.{
  Hiredis, Request, select, Connect, Method, close, connect, close_and_log, request_of, excute,
  is_error, answered, free_reply, finish_reply, select_index, finish_connect,
}

module _ (H : Hiredis) where
  open H use {Context, open_context, err, request}

  close_and_log-none : (c : Connect H) → close_and_log H c ≡ none
  unfolding close_and_log
  close_and_log-none c = refl

  -- A method comes back, without a connection or with that one.
  abbrev pub Refused : Method H → Type 0
  Refused m = (d : Connect H) × (m ≡ some (false, d)) × (d.context ≡ none)

  abbrev pub Accepted : Method H → Context → Type 0
  Accepted m x = (d : Connect H) × (m ≡ some (true, d)) × (d.context ≡ some x)

  -- What becomes of the answer to the selection of the index.
  abbrev pub Selected : Method H → Option Reply × Context → Type 0
  Selected m (reply, x) =
      ((reply ≡ none) × (m ≡ none))
      ⊎ ((r : Reply) × (reply ≡ some r) × (is_error r.type ≡ true) × Refused m)
      ⊎ ((r : Reply) × (reply ≡ some r) × (is_error r.type ≡ false) × Accepted m x)

  finish_connect-Selected :
      (c : Connect H) (o : Option Reply) (x : Context)
      → c.context ≡ some x
      → Selected (finish_connect H c o) (o, x)
  unfolding finish_connect close
  finish_connect-Selected c none x e = inl (refl, close_and_log-none c)
  finish_connect-Selected c (some r) x e = elim (Bool-cases (is_error r.type)) [
    | inl refused ↦ inr (inl (r, refl, refused, (free_reply H (close H c), rw refused refl, refl)))
    | inr accepted ↦ inr (inr (r, refl, accepted, (free_reply H c, rw accepted refl, e)))
  ]

  -- What becomes of a context that was made.
  abbrev pub Opened : Method H → Context → ℕ → Type 0
  Opened m x index =
      ((err x ≢ 0) × Refused m) ⊎ ((err x ≡ 0) × Selected m (request x (select index)))

  select_index-Opened : (c : Connect H) (x : Context) → Opened (select_index H c x) x c.index
  unfolding select_index close
  select_index-Opened c x = elim (Bool-cases (err x == 0)) [
    | inr bad ↦ inl (
      ground arith,
      (close H (record c { contexts_made = c.contexts_made + 1 }), rw bad refl, refl),
    )
    | inl good ↦
        inr
          (ground arith, rw good (finish_connect-Selected _ (request x (select c.index)).0 _ refl))
  ]

  -- `connect` on every answer of the server: where no context can be made, its null pointer is
  -- followed; a failed connection or a refused index gives false and no connection; an accepted one
  -- gives true and the connection; and with no answer to the selection of the index, the log line
  -- follows the pointer that `close` has just cleared.
  pub connect_lem :
      (c : Connect H)
      → ((open_context c.ip c.port ≡ none) × (connect H c ≡ none))
        ⊎ ((x : Context) × (open_context c.ip c.port ≡ some x) × Opened (connect H c) x c.index)
  unfolding connect close
  connect_lem c = elim (Option-cases (open_context c.ip c.port)) [
    | inl e ↦ inl (e, ap (λ o. o >>= select_index H (close H c)) e)
    | inr (x, e) ↦ inr (
      x,
      e,
      subst (λ m. Opened m x c.index) (sym (ap (λ o. o >>= select_index H (close H c)) e))
          (select_index-Opened (close H c) x),
    )
  ]

  excute-err :
      (c : Connect H) (k : Command) (x : Context) (q : Request)
      → c.context ≡ some x
      → request_of H k ≡ some q
      → (err (request x q).1 == 0) ≡ false
      → excute H c (some k) ≡ none
  unfolding excute
  excute-err c k x q e f bad = rw (e, excute, f, bad)

  excute-answer :
      (c : Connect H) (k : Command) (x : Context) (q : Request)
      → c.context ≡ some x
      → request_of H k ≡ some q
      → err (request x q).1 ≡ 0
      → excute H c (some k) ≡ some (finish_reply H (answered H c (request x q)) (request x q).0)
  unfolding excute
  excute-answer c k x q e f h = rw (e, excute, f, h) refl

  -- A command on a connection. If the connection reports no error after it, `excute` tells whether
  -- there was a reply that is neither nil nor an error, and the connection is kept. If it reports one,
  -- then whatever the reply, `excute` closes the connection, and its log line follows the cleared
  -- pointer.
  pub excute_lem :
      (c : Connect H) (k : Command) (x : Context) (q : Request)
      → c.context ≡ some x
      → request_of H k ≡ some q
      → excute H c (some k) ≡ (
          if err (request x q).1 == 0
          then some (finish_reply H (answered H c (request x q)) (request x q).0)
          else none)
  excute_lem c k x q e f = elim (Bool-cases (err (request x q).1 == 0)) [
    | inl good ↦ rw good (excute-answer c k x q e f (ground arith))
    | inr bad ↦ rw bad (excute-err c k x q e f bad)
  ]
