-- ===== src/Net/Listener.antt =====
-- engine/net/tcp_listener.h, and `listen` and `connect` of server_base.cpp: the acceptor, and the
-- sessions that get their identifiers and contexts from the server's one generator and one pool.
-- The answers of the resolver and the acceptor are arguments; a call of asio without an `error_code`
-- is taken to go through. `none`: the context pool or the generator gives nothing.
pub mod Accepting
mod Tests
use cxxprogram.Prelude.{
  Bool, List, Option, [], false, if◌then◌else◌, none, not, some, true, ℕ, ◌++◌, ◌>>=◌, ◌∷◌,
}
use cxxprogram.Net.ContextPool.{ContextPool}
use cxxprogram.Net.ContextPool
use cxxprogram.Utils.Snowflake.{Snowflake}
use cxxprogram.Utils.Snowflake
use cxxprogram.Net.Session

-- What all listeners and the server share: `context_pool_` and `id_generate_`.
pub record Shared : Type 0 where
  pub context_pool : ContextPool
  pub id_generate : Snowflake

-- A session as it is made: its context and its identifier.
pub record Pending : Type 0 where
  pub context : ℕ
  pub sid : ℕ

pub record Listener : Type 0 where
  -- `acceptor_->is_open()`.
  pub is_open : Bool
  -- The session of the `async_accept` that is under way.
  pub accepting : Option Pending
  -- The sessions whose `start` has been called, the latest first.
  pub started : List Pending

unfoldable pub fresh : Listener
fresh = record { is_open = false; accepting = none; started = [] }

-- Whether each call of `listen` goes through.
pub record Answers : Type 0 where
  pub resolves : Bool
  pub opens : Bool
  pub binds : Bool
  pub listens : Bool

unfoldable pub close : Listener → Listener
close l = record l { is_open = false }

module _ (clock : ℕ → ℕ) (fuel : ℕ) where
  -- A session with the next context and the next identifier.
  unfoldable pub make_session : Shared → Option (Pending × Shared)
  make_session h = do
    (context, pool) ← ContextPool.next h.context_pool
    (sid, generator) ← Snowflake.next clock fuel h.id_generate
    some (
      record { context = context; sid = sid },
      record { context_pool = pool; id_generate = generator },
    )

  unfoldable pub do_accept : Shared → Listener → Option (Shared × Listener)
  do_accept h l = do
    (session, h') ← make_session h
    some (h', record l { accepting = some session })

  unfoldable pub listen : Shared → Listener → Answers → Option (Bool × Shared × Listener)
  unfolding close
  listen h l a =
      let opened = record l { is_open = true } in
      if l.is_open
      then some (true, h, l)
      else if not a.resolves
      then some (false, h, close l)
      else if not a.opens
      then some (false, h, l)
      else if not a.binds
      then some (false, h, close opened)
      else if not a.listens
      then some (false, h, close opened)
      else do (h', l') ← do_accept h opened; some (true, h', l')

  -- The handler of `async_accept` for `session`; `error`: it failed.
  unfoldable pub accept_handler : Shared → Listener → Pending → Bool → Option (Shared × Listener)
  unfolding close
  accept_handler h l session error =
      let done = record l { accepting = none } in
      if not l.is_open
      then some (h, done)
      else if error
      then some (h, close done)
      else do_accept h (record done { started = session ∷ l.started })

  -- `server_base::listen`: the listeners that the server keeps. Only `socket_type::tcp` is served.
  unfoldable pub server_listen :
      Shared → List Listener → Bool → Answers → Option (Bool × Shared × List Listener)
  server_listen h acceptors is_tcp a = if not is_tcp then some (false, h, acceptors) else do
    (ok, h', l) ← listen h fresh a
    some (ok, h', if ok then acceptors ++ l ∷ [] else acceptors)

  -- `server_base::connect`: the identifier, or 0; and the session, where one was made.
  unfoldable pub server_connect :
      Shared → Bool → Bool → Bool → Option (ℕ × Shared × Option Session.Session)
  server_connect h is_tcp resolved accepted = if not is_tcp then some (0, h, none) else do
    (session, h') ← make_session h
    let (ok, s) = Session.connect Session.fresh resolved accepted
    some (if ok then session.sid else 0, h', some s)
