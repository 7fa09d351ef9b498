-- ===== src/Net/EndToEnd/Tests.antt =====
-- A message from `send` to the parser.
use mathlib.Core.List.{not-mem-nil, flatten, Perm}
use cxxprogram.Prelude.{
  List, [], arith, false, inl, inr, map, none, refl, some, true, ℕ, ◌++◌, ◌∷◌, ◌≡◌,
}
use cxxprogram.Net.Queue.{ConcurrentQueue, list_queue, list_queue-KeepsOrder, sift}
use cxxprogram.Net.BufferStream.{contents}
use cxxprogram.Net.BufferPool.{DataBuffer, Manager}
use cxxprogram.Net.BufferPool.Alloc.{IsPooled}
use cxxprogram.Net.BufferPool.Buffer.{payload}
use cxxprogram.Net.TcpParser.{Parsing, start, returns, parse_ok}
use cxxprogram.Net.TcpParser.Reassembly.{All, Headed, recv_all}
use cxxprogram.Net.Server.{Packet, Server, Session, update}
use cxxprogram.Net.Session.{Session as Sender, step}
use cxxprogram.Net.Session.Draining.{IsAlive}
use cxxprogram.Net.Session.Calls.{Calls, none_left, sent, ran, wrote}
use cxxprogram.Net.EndToEnd.Dispatch.{
  send_all, on_messages, CarryAll, from_session, messages-dispatched,
}
use cxxprogram.Net.EndToEnd.Stream.{Message, frames, recv_all-frames}

abbrev Q : ConcurrentQueue DataBuffer
Q = list_queue DataBuffer

abbrev no_pools : Manager Q
no_pools c = []

no_pools-IsPooled : IsPooled Q no_pools
no_pools-IsPooled c b m = absurd (not-mem-nil m)

abbrev messages : List Message
messages = (7, 65 ∷ []) ∷ (9, 66 ∷ []) ∷ []

abbrev chunks : List (List ℕ)
chunks = (9 ∷ 0 ∷ 0 ∷ 0 ∷ 7 ∷ 0 ∷ 0 ∷ 0 ∷ 65 ∷ 9 ∷ 0 ∷ []) ∷ (0 ∷ 0 ∷ 9 ∷ 0 ∷ 0 ∷ 0 ∷ 66 ∷ []) ∷ []

recv_all-frames_runs :
    (p : Parsing Q) × (recv_all Q 30 170 (start Q 170 no_pools) chunks ≡ returns parse_ok p)
    × (map payload p.delivered ≡ frames messages)
    × All Headed p.delivered
    × (contents p.stream ≡ [])
unfolding flatten
recv_all-frames_runs =
    recv_all-frames Q 30 170 no_pools messages chunks no_pools-IsPooled
      (omega arith, (omega arith, tt)) (omega arith, (omega arith, tt)) refl (omega arith)

-- A session of the sender, when it is new and when it has written both messages.
abbrev connected_session : Sender
connected_session = record {
  is_open = true;
  send_buffer = [];
  cache_buffer = [];
  sending = false;
  writing = none;
  posted = [];
  reading = true;
  written = [];
  connects = 1;
  closes = 0;
}

abbrev at_rest : Sender
at_rest = record connected_session { written = flatten (frames messages) }

connected_session-IsAlive : IsAlive connected_session
connected_session-IsAlive = record {
  sending = record { busy = inr (refl, refl, refl); awake = inl refl };
  opened = refl;
  unshut = refl;
}

-- The second message is sent while the first is on its way.
two_calls : Calls connected_session (frames messages) at_rest
unfolding step flatten
two_calls =
    sent {s = connected_session} _
      (ran refl (sent _ (ran refl (wrote refl (wrote refl none_left)))))

abbrev receiver : Session
receiver = record { sid = 5; name = 0 }

abbrev packets : ConcurrentQueue Packet
packets = list_queue Packet

abbrev server : Server packets
server = record { sessions = []; msg_queue = [] }

messages-dispatched_example :
    (m' : Manager Q) × (p : Parsing Q) × (v' : Server packets) × (arrived ps q : List Packet)
    × (send_all Q 170 no_pools messages ≡ some (frames messages, m'))
    × (recv_all Q 30 170 (start Q 170 no_pools) chunks ≡ returns parse_ok p)
    × (map payload p.delivered ≡ frames messages)
    × (on_messages packets server receiver p.delivered ≡ some v')
    × CarryAll receiver messages arrived
    × (update packets 3 true v'.msg_queue ≡ some (ps, q))
    × Perm (arrived ++ []) ps
    × (q ≡ [])
    × (sift (from_session 5) ps ≡ arrived)
unfolding step flatten
messages-dispatched_example =
    messages-dispatched Q packets 30 170 3 no_pools no_pools messages connected_session at_rest
      chunks server receiver (list_queue-KeepsOrder from_session) no_pools-IsPooled
      no_pools-IsPooled ((omega arith, omega arith), ((omega arith, omega arith), tt))
      connected_session-IsAlive refl refl two_calls refl refl refl (omega arith, (omega arith, tt))
      (omega arith) (omega arith)
