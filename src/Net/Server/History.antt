-- ===== src/Net/Server/History.antt =====
-- The sessions that the server of engine/net/server_base.cpp knows after connections and ends.
use mathlib.Core.List.{Perm}
use mathlib.Core.List.Perm
use cxxprogram.Prelude.{
  List, Option, [], ap, if◌then◌else◌, map, none, some, ℕ, ◌++◌, ◌==◌, ◌∙◌, ◌∷◌, ◌≡◌,
}
use cxxprogram.Net.Queue.{ConcurrentQueue}
use cxxprogram.Net.Server.{
  Packet, Server, Session, connected, closeed, on_connect, on_close, get_session, find,
}
use cxxprogram.Net.Server.Sessions.{on_connect_lem, on_close_lem}

-- A call of `on_connect` or of `on_close`.
pub data Change : Type 0 where
  opens closes : Session → Change

-- The packet that tells the dispatcher of it.
abbrev pub notice : Change → Packet
notice (opens s) = record { session = s; msgid = connected; buffer = none }
notice (closes s) = record { session = s; msgid = closeed; buffer = none }

-- The last change that concerns `sid` decides; the newest stands first.
abbrev pub recent : ℕ → List Change → Option Session
recent sid [] = none
recent sid (opens s ∷ cs) = if s.sid == sid then some s else recent sid cs
recent sid (closes s ∷ cs) = if s.sid == sid then none else recent sid cs

module _ (P : ConcurrentQueue Packet) where
  abbrev pub change : Server P → Change → Server P
  change v (opens s) = on_connect P v s
  change v (closes s) = on_close P v s

  abbrev pub change_all : Server P → List Change → Server P
  change_all v [] = v
  change_all v (c ∷ cs) = change (change_all v cs) c

  -- After any connections and ends of sessions, on a server without sessions: under an identifier the
  -- server knows the session of the last connection, unless an end came after it; and the queue has
  -- one notice for each of them, besides the packets from before.
  pub change_all_lem :
      (v : Server P) (cs : List Change) (sid : ℕ)
      → v.sessions ≡ []
      → (get_session P (change_all v cs) sid ≡ recent sid cs)
        × Perm (P.items (change_all v cs).msg_queue) (map notice cs ++ P.items v.msg_queue)
  unfolding get_session
  change_all_lem v [] sid e = (ap (λ m. find sid m) e, Perm.refl (P.items v.msg_queue))
  change_all_lem v (opens s ∷ cs) sid e =
      let (known, queued) = change_all_lem v cs sid e in
      let (found, joined) = on_connect_lem P (change_all v cs) s sid in
      (
        found ∙ ap (λ o. if s.sid == sid then some s else o) known,
        Perm.trans joined (Perm.cons (notice (opens s)) queued),
      )
  change_all_lem v (closes s ∷ cs) sid e =
      let (known, queued) = change_all_lem v cs sid e in
      let (found, joined) = on_close_lem P (change_all v cs) s sid in
      (
        found ∙ ap (λ o. if s.sid == sid then none else o) known,
        Perm.trans joined (Perm.cons (notice (closes s)) queued),
      )
