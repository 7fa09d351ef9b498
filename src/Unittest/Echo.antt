-- ===== src/Unittest/Echo.antt =====
-- unittest/t_asio/t_asio_server.cpp and t_asio_client.cpp: a server that answers every packet, and a
-- client that answers the server's answers. A packet is its session and its number; the bodies are
-- empty. What a program has sent and the other has not yet dispatched is a list, whether on the wire
-- or queued; the programs take turns in any order. The connections stay open.
pub mod Flights
mod Tests
use cxxprogram.Prelude.{
  List, Option, [], if◌then◌else◌, ltb, none, some, suc, zero, ℕ, ◌*◌, ◌++◌, ◌+◌, ◌/◌, ◌==◌, ◌∷◌,
  ◌≡◌,
}
use cxxprogram.Prelude.Int.{ℤ, pos, negsuc, ltb_ℤ}
use mathlib.Core.Option
use cxxprogram.Net.Server.{connected}

-- What `net_packet` carries here: the session, and `msgid`.
abbrev pub Packet : Type 0
Packet = ℕ × ℕ

-- The members of either program.
pub record Program : Type 0 where
  pub count : ℕ
  pub last_time : ℕ

abbrev pub interval : ℕ
interval = 10 * 1000

abbrev pub request : ℕ
request = 1000

abbrev pub answer : ℕ
answer = 1001

-- The dispatchers, with the packets that they send.
unfoldable pub server_dispatch : Program → Packet → Program × List Packet
server_dispatch p (session, msgid) = (record p { count = p.count + 1 }, (session, answer) ∷ [])

unfoldable pub client_dispatch : Program → Packet → Program × List Packet
client_dispatch p (session, msgid) =
    if msgid == connected
    then (p, (session, request) ∷ [])
    else if msgid == answer
    then (record p { count = p.count + 1 }, (session, request) ∷ [])
    else (p, [])

-- The start of the loop of `excute`: the rate that is printed, when it is time.
unfoldable pub report : ℕ → Program → Option ℕ × Program
report now p =
    if ltb p.last_time now
    then (some (p.count * 1000 / interval), record { count = 0; last_time = now + interval })
    else (none, p)

-- The numbers that are read first: whether the server listens, and with how many threads; and whether
-- the client connects, and how often.
unfoldable pub server_start : ℤ → ℤ → Option (ℤ × ℤ)
server_start port thread_count =
    if ltb_ℤ port (pos 8889)
    then none
    else if ltb_ℤ thread_count (pos 0)
    then none
    else some (port, thread_count)

abbrev pub robots : ℤ → Option ℕ
robots (pos zero) = none
robots (pos (suc n)) = some (suc n)
robots (negsuc n) = some 0

unfoldable pub client_start : ℤ → ℤ → Option (ℤ × ℕ)
client_start port robot_count =
    if ltb_ℤ port (pos 8889) then none else Option.map (λ n. (port, n)) (robots robot_count)

-- Both programs, with what each has still to dispatch, and the sessions so far.
pub record Pair : Type 0 where
  pub server : Program
  pub client : Program
  pub to_server : List Packet
  pub to_client : List Packet
  pub sessions : List ℕ

-- When the client's loop begins; the server's `last_time_` is 0, by `new t_asio_server()`.
abbrev pub begin : ℕ → Pair
begin now = record {
  server = record { count = 0; last_time = 0 };
  client = record { count = 0; last_time = now + interval };
  to_server = [];
  to_client = [];
  sessions = [];
}

pub data Step (s : Pair) : Pair → Type 0 where
  -- A connection comes about: `on_connect` of either side queues a packet.
  connects :
      (session : ℕ)
      → Step s (record s {
        to_server = s.to_server ++ (session, connected) ∷ [];
        to_client = s.to_client ++ (session, connected) ∷ [];
        sessions = session ∷ s.sessions;
      })
  -- A packet is dispatched, any of those that wait.
  serves :
      (before : List Packet) (packet : Packet) (after : List Packet)
      → s.to_server ≡ before ++ packet ∷ after
      → Step s (record s {
        server = (server_dispatch s.server packet).0;
        to_server = before ++ after;
        to_client = s.to_client ++ (server_dispatch s.server packet).1;
      })
  asks :
      (before : List Packet) (packet : Packet) (after : List Packet)
      → s.to_client ≡ before ++ packet ∷ after
      → Step s (record s {
        client = (client_dispatch s.client packet).0;
        to_client = before ++ after;
        to_server = s.to_server ++ (client_dispatch s.client packet).1;
      })
  server_reports : (now : ℕ) → Step s (record s { server = (report now s.server).1 })
  client_reports : (now : ℕ) → Step s (record s { client = (report now s.client).1 })

pub data Reach (s : Pair) : Pair → Type 0 where
  here : Reach s s
  next : {t u : Pair} → Reach s t → Step t u → Reach s u
