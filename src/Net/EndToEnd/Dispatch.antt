-- ===== src/Net/EndToEnd/Dispatch.antt =====
-- From the calls of `send` on one machine, through its session and the connection, to the dispatcher
-- of the other (engine/net: server_base.cpp, tcp_session.h, tcp_parser.cpp).
use mathlib.Core.List.{flatten, Perm, perm_middle}
use mathlib.Core.Option
use mathlib.Core.List.Perm
use cxxprogram.Prelude.{
  Bool, List, Option, [], ap, append-nil, append_assoc, arith, false, length, length-append, map,
  none, refl, some, suc, sym, true, ℕ, ◌++◌, ◌+◌, ◌<◌, ◌==◌, ◌^◌, ◌∙◌, ◌∷◌, ◌≡◌, ◌≤◌,
}
use cxxprogram.Net.Queue.{ConcurrentQueue, KeepsOrder, sift, sift-append}
use cxxprogram.Net.BufferPool.{DataBuffer, Manager}
use cxxprogram.Net.BufferPool.Alloc.{IsPooled, length-perm}
use cxxprogram.Net.BufferPool.Buffer.{payload, body as body_bytes}
use cxxprogram.Net.TcpParser.{Parsing, start, returns, parse_ok, initial_size}
use cxxprogram.Net.TcpParser.Reassembly.{All, Headed, recv_all}
use cxxprogram.Net.Server.{Packet, Server, Session, on_message, update, send as send_message}
use cxxprogram.Net.Server.Framing.{frame, send_lem, on_message-frame}
use cxxprogram.Net.Server.Sessions.{update_lem}
use cxxprogram.Net.Session.{Session as Sender, runs, writes, step}
use cxxprogram.Net.Session.Sending.Buffers.{stream}
use cxxprogram.Net.Session.Draining.{IsAlive}
use cxxprogram.Net.Session.Calls.{Calls, Calls-written}
use cxxprogram.Net.EndToEnd.Stream.{Message, frames, IsShort, recv_all-frames}

-- A message whose number fits its field.
abbrev pub IsMessage : Message → Type 0
IsMessage (msgid, body) = (length body < 65528) × (msgid < 2 ^ 32)

-- The packet of a message from the session `s`.
abbrev pub Carries : Session → Message → Packet → Type 0
Carries s (msgid, body) p =
    (p.session ≡ s)
    × (p.msgid ≡ msgid)
    × ((b : DataBuffer) × (p.buffer ≡ some b) × (body_bytes b ≡ body))

abbrev pub CarryAll : Session → List Message → List Packet → Type 0
CarryAll s [] [] = Unit {0}
CarryAll s [] (p ∷ ps) = ⊥
CarryAll s (m ∷ ms) [] = ⊥
CarryAll s (m ∷ ms) (p ∷ ps) = Carries s m p × CarryAll s ms ps

pub IsMessage-IsShort : (ms : List Message) → All IsMessage ms → All IsShort ms
IsMessage-IsShort [] h = tt
IsMessage-IsShort (m ∷ ms) ((h, k), hs) = (h, IsMessage-IsShort ms hs)

-- The packets with a buffer: those are queued by `on_message`, which the thread of the session's
-- context calls, so that this thread is their producer. Notices may come from other threads.
abbrev pub from_session : ℕ → Packet → Bool
from_session i p = elim p.buffer [ none ↦ false | some b ↦ p.session.sid == i ]

pub CarryAll-sift :
    (s : Session) (i : ℕ) (ms : List Message) (ps : List Packet)
    → (s.sid == i) ≡ true
    → CarryAll s ms ps
    → sift (from_session i) ps ≡ ps
CarryAll-sift s i [] [] e h = refl
CarryAll-sift s i [] (p ∷ ps) e h = absurd h
CarryAll-sift s i (m ∷ ms) [] e h = absurd h
CarryAll-sift s i ((msgid, body) ∷ ms) (p ∷ ps) e ((own, _, (b, full, _)), hs) =
    let of_it : from_session i p ≡ true =
      ap (λ (o : Option DataBuffer). elim o [ none ↦ false | some b ↦ p.session.sid == i ]) full
      ∙ ap (λ (t : Session). t.sid == i) own
      ∙ e in
    rw of_it (ap (λ l. p ∷ l) (CarryAll-sift s i ms ps e hs))

-- `on_message` for each buffer that the parser hands on, in turn.
abbrev pub on_messages :
    (P : ConcurrentQueue Packet) → Server P → Session → List DataBuffer → Option (Server P)
on_messages P v s [] = some v
on_messages P v s (b ∷ bs) = elim (on_message P v s b) [
  | none ↦ none
  | some v' ↦ on_messages P v' s bs
]

pub head_eq : {A : Type 0} {x y : A} {xs ys : List A} → x ∷ xs ≡ y ∷ ys → x ≡ y
head_eq {x = x} e = ap (λ l. elim l [ [] ↦ x | y ∷ ys ↦ y ]) e

pub tail_eq : {A : Type 0} {x y : A} {xs ys : List A} → x ∷ xs ≡ y ∷ ys → xs ≡ ys
tail_eq e = ap (λ l. elim l [ [] ↦ [] | y ∷ ys ↦ ys ]) e

pub on_messages_lem :
    (P : ConcurrentQueue Packet) (v : Server P) (s : Session) (bs : List DataBuffer)
    (ms : List Message)
    → map payload bs ≡ frames ms
    → All Headed bs
    → All IsMessage ms
    → (v' : Server P) × (ps : List Packet) × (on_messages P v s bs ≡ some v')
      × CarryAll s ms ps
      × (length ps ≡ length ms)
      × Perm (P.items v'.msg_queue) (ps ++ P.items v.msg_queue)
      × ((from : ℕ → Packet → Bool)
          → KeepsOrder P from
          → (i : ℕ)
          → sift (from i) (P.items v'.msg_queue)
            ≡ sift (from i) (P.items v.msg_queue) ++ sift (from i) ps)
on_messages_lem P v s [] [] e h k =
    (v, [], refl, tt, refl, Perm.refl (P.items v.msg_queue), λ from k i. sym (append-nil _))
on_messages_lem P v s [] (m ∷ ms) e h k = cc
on_messages_lem P v s (b ∷ bs) [] e h k = cc
on_messages_lem P v s (b ∷ bs) ((msgid, body) ∷ ms) e ((header, total), h) ((short, number), k) =
    let own : payload b ≡ frame msgid body = head_eq e in
    let packet : Packet = record { session = s; msgid = msgid; buffer = some b } in
    let w : Server P = record v { msg_queue = P.enqueue packet v.msg_queue } in
    let (queued, bytes) =
      on_message-frame P v s b msgid body own header (omega (arith, total, ap length own)) number
        (omega arith) in
    let (v', ps, run, carried, size, perm, order) = on_messages_lem P w s bs ms (tail_eq e) h k in
    (
      v',
      packet ∷ ps,
      rw (queued, on_messages) run,
      ((refl, refl, (b, refl, bytes)), carried),
      ap suc size,
      Perm.trans perm (
          Perm.trans (Perm.append_left ps (P.items-enqueue packet v.msg_queue))
            (perm_middle ps (P.items v.msg_queue))),
      λ from keeps i.
          order from keeps i
          ∙ ap (λ l. l ++ sift (from i) ps) (keeps.last_in i packet v.msg_queue)
          ∙ append_assoc (sift (from i) (P.items v.msg_queue)) (sift (from i) (packet ∷ []))
              (sift (from i) ps)
          ∙ ap (λ l. sift (from i) (P.items v.msg_queue) ++ l)
              (sym (sift-append (from i) (packet ∷ []) ps)),
    )

-- `send` of the server for each message, in turn.
abbrev pub send_all :
    (Q : ConcurrentQueue DataBuffer)
    → ℕ
    → Manager Q
    → List Message
    → Option (List (List ℕ) × Manager Q)
send_all Q fill m [] = some ([], m)
send_all Q fill m ((msgid, body) ∷ ms) = elim (send_message Q fill m msgid body) [
  | none ↦ none
  | some (bytes, m') ↦ Option.map (λ (bs, m''). (bytes ∷ bs, m'')) (send_all Q fill m' ms)
]

send_all_lem :
    (Q : ConcurrentQueue DataBuffer) (fill : ℕ) (m : Manager Q) (ms : List Message)
    → IsPooled Q m
    → All IsMessage ms
    → (m' : Manager Q) × (send_all Q fill m ms ≡ some (frames ms, m'))
send_all_lem Q fill m [] v h = (m, refl)
send_all_lem Q fill m ((msgid, body) ∷ ms) v ((short, number), h) =
    let (m₁, sent, _, v₁) = send_lem Q fill m msgid body v short in
    let (m₂, later) = send_all_lem Q fill m₁ ms v₁ h in (m₂, rw (sent, send_all, later) refl)

-- Messages of fewer than 65528 bytes and with 32-bit numbers, pools that are as they should be, a
-- queue that keeps the order of one producer's packets, and a session that is open, holds no bytes
-- and has nothing posted: `send` makes a packet of each message; the session writes them, however
-- its calls and turns are mixed; and when neither a handler nor a write is left, the receiver's new
-- parser, in chunks of at most 2048 bytes and with more fuel than there are bytes, cuts out as many
-- buffers, from which `on_message` queues one packet for each message, with its number and its
-- body, in their order; and `update`, with more rounds than there are packets, hands these to the
-- dispatcher, each once, and besides them only what was queued before; and the packets of the
-- session that have a buffer come to the dispatcher as those that were queued before and then
-- these, in the order of the messages.
pub messages-dispatched :
    (Q : ConcurrentQueue DataBuffer) (P : ConcurrentQueue Packet) (fuel fill rounds : ℕ)
    (m m₂ : Manager Q) (ms : List Message) (a t : Sender) (chunks : List (List ℕ)) (v : Server P)
    (s : Session)
    → KeepsOrder P from_session
    → IsPooled Q m
    → IsPooled Q m₂
    → All IsMessage ms
    → IsAlive a
    → a.posted ≡ []
    → stream a ≡ []
    → Calls a (frames ms) t
    → step t runs ≡ none
    → step t writes ≡ none
    → flatten chunks ≡ t.written
    → All (λ chunk. length chunk ≤ initial_size) chunks
    → length (flatten chunks) < fuel
    → length ms + length (P.items v.msg_queue) < rounds
    → (m' : Manager Q) × (p : Parsing Q) × (v' : Server P) × (arrived ps : List Packet)
      × (q : P.Carrier) × (send_all Q fill m ms ≡ some (frames ms, m'))
      × (recv_all Q fuel fill (start Q fill m₂) chunks ≡ returns parse_ok p)
      × (map payload p.delivered ≡ frames ms)
      × (on_messages P v s p.delivered ≡ some v')
      × CarryAll s ms arrived
      × (update P rounds true v'.msg_queue ≡ some (ps, q))
      × Perm (arrived ++ P.items v.msg_queue) ps
      × (P.items q ≡ [])
      × (sift (from_session s.sid) ps ≡ sift (from_session s.sid) (P.items v.msg_queue) ++ arrived)
messages-dispatched Q P fuel fill rounds m m₂ ms a t chunks v s keeps w w₂ h alive posted nothing
      calls r u e small k l =
    let (m', sent) = send_all_lem Q fill m ms w h in
    let (p, received, carries, headed, _) =
      recv_all-frames Q fuel fill m₂ ms chunks w₂ (IsMessage-IsShort ms h) small
        (e ∙ Calls-written alive posted nothing calls r u) k in
    let (v', arrived, queued, carried, size, perm, order) =
      on_messages_lem P v s p.delivered ms carries headed h in
    let (ps, q, updated, all, gone, later) =
      update_lem P rounds v'.msg_queue
        (omega (arith, length-perm _ _ perm, length-append arrived (P.items v.msg_queue), size)) in
    (
      m',
      p,
      v',
      arrived,
      ps,
      q,
      sent,
      received,
      carries,
      queued,
      carried,
      updated,
      Perm.trans (Perm.symm perm) all,
      gone,
      sym (later from_session keeps s.sid)
          ∙ order from_session keeps s.sid
          ∙ ap (λ l. sift (from_session s.sid) (P.items v.msg_queue) ++ l)
              (CarryAll-sift s s.sid ms arrived (ground arith) carried),
    )
