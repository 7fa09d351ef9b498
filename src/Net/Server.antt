-- ===== src/Net/Server.antt =====
-- engine/net/server_base.h, server_base.cpp and header.h: the server hands packets of its sessions to
-- a dispatcher and frames what it sends. A `session_ptr` is the session's identifier and a name for
-- the object; `std::unordered_map` is an association list. The spin lock makes each access to the map
-- one step. `none` is a null pointer that is followed, or an access outside a buffer.
pub mod Framing
pub mod Sessions
pub mod History
pub mod Registry
mod Tests
use mathlib.Core.Option
use cxxprogram.Prelude.{
  Bool, List, Option, [], if◌then◌else◌, length, none, some, suc, zero, ℕ, ◌%◌, ◌+◌, ◌/◌, ◌==◌,
  ◌>>=◌, ◌^◌, ◌∷◌,
}
use cxxprogram.Net.Queue.{ConcurrentQueue}
use cxxprogram.Net.BufferStream.{load, store}
use cxxprogram.Net.BufferPool.{
  DataBuffer, Manager, alloc, to_int, give_back, set_total_length, set_header_length,
}
use cxxprogram.Net.TcpParser.{word, header_size}

-- The four bytes of a `uint32_t`.
abbrev pub word_bytes : ℕ → List ℕ
word_bytes n = (n % 256) ∷ (n / 256 % 256) ∷ (n / 65536 % 256) ∷ (n / 16777216 % 256) ∷ []

pub record Session : Type 0 where
  pub sid : ℕ
  pub name : ℕ

-- `net_packet`; no buffer is `nullptr`.
pub record Packet : Type 0 where
  pub session : Session
  pub msgid : ℕ
  pub buffer : Option DataBuffer

-- `msg_base`.
abbrev pub connected : ℕ
connected = 1

abbrev pub closeed : ℕ
closeed = 2

abbrev pub find : ℕ → List (ℕ × Session) → Option Session
find k [] = none
find k ((j, s) ∷ m) = if j == k then some s else find k m

-- `sessions_[k] = s`, and `erase(k)`.
abbrev pub put : ℕ → Session → List (ℕ × Session) → List (ℕ × Session)
put k s [] = (k, s) ∷ []
put k s ((j, t) ∷ m) = if j == k then (k, s) ∷ m else (j, t) ∷ put k s m

abbrev pub erase : ℕ → List (ℕ × Session) → List (ℕ × Session)
erase k [] = []
erase k ((j, t) ∷ m) = if j == k then erase k m else (j, t) ∷ erase k m

-- The header and the body go into the buffer, whose `total_length` bytes go to the session.
unfoldable pub fill_buffer : DataBuffer → ℕ → ℕ → List ℕ → Option DataBuffer
fill_buffer buffer total_length msgid body = do
  let b = set_header_length (set_total_length buffer total_length) header_size
  with_length ← store b.buffer 0 (word_bytes total_length)
  with_header ← store with_length 4 (word_bytes msgid)
  whole ← store with_header b.header_length body
  some (record b { buffer = whole })

module _ (Q : ConcurrentQueue DataBuffer) where
  -- The bytes passed to `session->send`, and the pools after the buffer has come back.
  unfoldable pub send : ℕ → Manager Q → ℕ → List ℕ → Option (List ℕ × Manager Q)
  send fill pools msgid body = do
    let total_length = (header_size + length body) % 2 ^ 64
    (buffer, pools') ← alloc Q fill pools (to_int total_length)
    b ← fill_buffer buffer total_length msgid body
    bytes ← load b.buffer 0 b.total_length
    some (bytes, give_back Q b.alloc_size b pools')

module _ (P : ConcurrentQueue Packet) where
  pub record Server : Type 0 where
    pub sessions : List (ℕ × Session)
    pub msg_queue : P.Carrier

  unfoldable pub on_connect : Server → Session → Server
  on_connect v s =
      let packet : Packet = record { session = s; msgid = connected; buffer = none } in
      record { sessions = put s.sid s v.sessions; msg_queue = P.enqueue packet v.msg_queue }

  unfoldable pub on_close : Server → Session → Server
  on_close v s =
      let packet : Packet = record { session = s; msgid = closeed; buffer = none } in
      record { sessions = erase s.sid v.sessions; msg_queue = P.enqueue packet v.msg_queue }

  -- `header->msgid` is read from the buffer.
  unfoldable pub on_message : Server → Session → DataBuffer → Option Server
  on_message v s buffer =
      Option.map
        (λ bytes. record v {
          msg_queue =
              P.enqueue (record { session = s; msgid = word bytes; buffer = some buffer })
                v.msg_queue;
        })
        (load buffer.buffer 4 4)

  unfoldable pub get_session : Server → ℕ → Option Session
  get_session v sid = find sid v.sessions

  -- The packets that `dispatcher_` gets, in turn, where there is one, on fuel.
  unfoldable pub update : ℕ → Bool → P.Carrier → Option (List Packet × P.Carrier)
  update zero dispatches q = none
  update (suc fuel) dispatches q = elim (P.try_dequeue q) [
    | none ↦ some ([], q)
    | some (packet, q') ↦
        Option.map (λ (packets, r). (if dispatches then packet ∷ packets else packets, r))
          (update fuel dispatches q')
  ]
