-- ===== src/Net/EndToEnd/Sessions.antt =====
-- The sessions of one machine that read: `on_read` of engine/net/tcp_session.h, tcp_parser.cpp and
-- `on_message` of server_base.cpp together. Each session has a parser of its own; the pools and the
-- queue of the server are shared. A read is one step: the sessions of one context run one at a time.
-- A buffer comes back to its pool only after the dispatcher had it, which is after these steps.
pub mod Sorting
pub mod Reading
pub mod Dispatched
mod Tests
use mathlib.Core.Option
use cxxprogram.Prelude.{List, Option, [], true, if◌then◌else◌, none, some, ℕ, ◌++◌, ◌==◌, ◌∷◌}
use cxxprogram.Net.Queue.{ConcurrentQueue}
use cxxprogram.Net.BufferStream.{BufferStream, init}
use cxxprogram.Net.BufferPool.{DataBuffer, Manager}
use cxxprogram.Net.TcpParser.{
  Parsing, ParserCode, faults, initial_size, parse_ok, recv_and_decode, returns, runs_on,
}
use cxxprogram.Net.Server.{Packet, Server, Session}
use cxxprogram.Net.EndToEnd.Dispatch.{on_messages}

-- The bytes that a read of one session brings.
abbrev pub Arrival : Type 0
Arrival = ℕ × List ℕ

abbrev pub set_stream : (ℕ → BufferStream) → ℕ → BufferStream → ℕ → BufferStream
set_stream f sid s i = if sid == i then s else f i

-- The session of an identifier, with a name for the object.
abbrev pub handle : (ℕ → ℕ) → ℕ → Session
handle name sid = record { sid = sid; name = name sid }

-- What has arrived for one session.
abbrev pub bytes_of : ℕ → List Arrival → List ℕ
bytes_of i [] = []
bytes_of i ((sid, chunk) ∷ later) = if sid == i then chunk ++ bytes_of i later else bytes_of i later

module _ (Q : ConcurrentQueue DataBuffer) (P : ConcurrentQueue Packet) where
  pub record Machine : Type 0 where
    pub streams : ℕ → BufferStream
    pub pools : Manager Q
    pub server : Server P

  -- No session has read yet.
  unfoldable pub begin : ℕ → Manager Q → Server P → Machine
  unfolding init
  begin fill m v = record { streams = λ i. init fill initial_size; pools = m; server = v }

  -- The parser of a session, at a call of `recv_and_decode`.
  abbrev pub parsing : Machine → ℕ → Parsing Q
  parsing c sid = record { stream = c.streams sid; pools = c.pools; delivered = [] }

  -- A read: the parser's answer, and the machine after the packets went to `on_message`.
  unfoldable pub receive : ℕ → ℕ → (ℕ → ℕ) → Machine → Arrival → Option (ParserCode × Machine)
  receive fuel fill name c (sid, chunk) =
      elim (recv_and_decode Q fuel fill true (parsing c sid) chunk) [
        | returns code p ↦
            Option.map
              (λ v. (
                code,
                record { streams = set_stream c.streams sid p.stream; pools = p.pools; server = v },
              ))
              (on_messages P c.server (handle name sid) p.delivered)
        | faults ↦ none
        | runs_on ↦ none
      ]

  -- Reads one after another, as long as the parsers answer `parse_ok`.
  unfoldable pub receive_all : ℕ → ℕ → (ℕ → ℕ) → Machine → List Arrival → Option Machine
  receive_all fuel fill name c [] = some c
  receive_all fuel fill name c (a ∷ later) = elim (receive fuel fill name c a) [
    | none ↦ none
    | some (code, c') ↦ elim code [ parse_ok ↦ receive_all fuel fill name c' later | _ ↦ none ]
  ]
