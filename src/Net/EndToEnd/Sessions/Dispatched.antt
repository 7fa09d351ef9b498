-- ===== src/Net/EndToEnd/Sessions/Dispatched.antt =====
-- What the sessions of one machine read reaches the dispatcher (engine/net: tcp_session.h,
-- tcp_parser.cpp, server_base.cpp).
use mathlib.Core.List.{flatten, Perm}
use mathlib.Core.List.Perm
use cxxprogram.Prelude.{
  List, [], ap, append-nil, append_assoc, arith, if◌then◌else◌, length, length-append, map, refl,
  some, subst, suc, sym, true, ℕ, ◌++◌, ◌<◌, ◌==◌, ◌∙◌, ◌∷◌, ◌≡◌, ◌≤◌,
}
use cxxprogram.Net.Queue.{ConcurrentQueue, KeepsOrder, sift, sift-append}
use cxxprogram.Net.BufferStream.{contents}
use cxxprogram.Net.BufferPool.{DataBuffer, Manager}
use cxxprogram.Net.BufferPool.Alloc.{IsPooled}
use cxxprogram.Net.BufferPool.Buffer.{}
use cxxprogram.Net.TcpParser.{initial_size, parse_ok, start}
use cxxprogram.Net.TcpParser.Frames.{Framed, Framed-partial, IsPartial}
use cxxprogram.Net.TcpParser.Reassembly.{All, start-IsReady}
use cxxprogram.Net.Server.{Packet, Server, update}
use cxxprogram.Net.Server.Sessions.{update_lem}
use cxxprogram.Net.EndToEnd.Stream.{Framed-frames, Message, frames}
use cxxprogram.Net.EndToEnd.Dispatch.{
  CarryAll, CarryAll-sift, from_session, IsMessage, IsMessage-IsShort,
}
use cxxprogram.Net.EndToEnd.Sessions.{
  Arrival, Machine, begin, bytes_of, handle, receive, receive_all,
}
use cxxprogram.Net.EndToEnd.Sessions.Sorting.{
  of_session, of_session-append, told_apart, of_session-own, of_session-other, CarryAll-append,
  queued_before, sift-of_session, ==-self,
}
use cxxprogram.Net.EndToEnd.Sessions.Reading.{Awaits, receive_lem}

module _ (Q : ConcurrentQueue DataBuffer) (P : ConcurrentQueue Packet) (fuel fill : ℕ)
    (name : ℕ → ℕ) where
  -- Reads one after another.
  record Sorted (c : Machine Q P) (arrivals : List Arrival) (ms : ℕ → List Message)
      (rest : ℕ → List ℕ) : Type 0 where
    after : Machine Q P
    arrived : List Packet
    runs : receive_all Q P fuel fill name c arrivals ≡ some after
    sorted : (i : ℕ) → CarryAll (handle name i) (ms i) (of_session i arrived)
    left : (i : ℕ) → contents (after.streams i) ≡ rest i
    queued : Perm (P.items after.server.msg_queue) (arrived ++ P.items c.server.msg_queue)
    ordered :
        KeepsOrder P from_session
        → (i : ℕ)
        → sift (from_session i) (P.items after.server.msg_queue)
          ≡ sift (from_session i) (P.items c.server.msg_queue) ++ sift (from_session i) arrived

  frames-nil : (ms : List Message) → frames ms ≡ [] → ms ≡ []
  frames-nil [] e = refl
  frames-nil (m ∷ ms) e = cc

  receive_all-ok :
      (c d e : Machine Q P) (a : Arrival) (later : List Arrival)
      → receive Q P fuel fill name c a ≡ some (parse_ok, d)
      → receive_all Q P fuel fill name d later ≡ some e
      → receive_all Q P fuel fill name c (a ∷ later) ≡ some e
  unfolding receive_all
  receive_all-ok c d e a later h k = rw (h, receive_all) k

  receive_all-Sorted :
      (c : Machine Q P) (arrivals : List Arrival) (ms : ℕ → List Message) (rest : ℕ → List ℕ)
      → All (λ (i, chunk). length chunk ≤ initial_size) arrivals
      → Awaits Q P fuel fill name c arrivals ms rest
      → Sorted c arrivals ms rest
  unfolding receive_all
  receive_all-Sorted c [] ms rest small v =
      let done : (i : ℕ) → (frames (ms i) ≡ []) × (rest i ≡ contents (c.streams i)) = λ i.
        Framed-partial
          (subst (λ l. Framed l (frames (ms i)) (rest i)) (append-nil (contents (c.streams i)))
            (v.framed i))
          (v.ready i).waiting in
      record {
        after = c;
        arrived = [];
        runs = refl;
        sorted =
            λ i. subst (λ l. CarryAll (handle name i) l []) (sym (frames-nil (ms i) (done i).0)) tt;
        left = λ i. sym (done i).1;
        queued = Perm.refl (P.items c.server.msg_queue);
        ordered = λ keeps i. sym (append-nil _);
      }
  receive_all-Sorted c ((j, chunk) ∷ later) ms rest (short, small) v =
      let r = receive_lem Q P fuel fill name c j chunk later ms rest short v in
      let s =
        receive_all-Sorted r.after later (λ i. if j == i then r.others else ms i) rest small
          r.awaits in
      record {
        after = s.after;
        arrived = r.arrived ++ s.arrived;
        runs = receive_all-ok c r.after s.after (j, chunk) later r.runs s.runs;
        sorted = λ i.
            told_apart j
              (λ k b.
                CarryAll (handle name k) (if b then r.others else ms k) (of_session k s.arrived)
                → CarryAll (handle name k) (ms k) (of_session k (r.arrived ++ s.arrived)))
              (λ h.
                subst (λ l. CarryAll (handle name j) l (of_session j (r.arrived ++ s.arrived)))
                  (sym r.cut)
                  (subst (CarryAll (handle name j) (r.first ++ r.others))
                    (sym (
                      of_session-append j r.arrived s.arrived
                      ∙ ap (λ l. l ++ of_session j s.arrived)
                          (of_session-own (handle name j) r.first r.arrived r.carried)))
                    (CarryAll-append (handle name j) r.first r.others r.arrived
                      (of_session j s.arrived) r.carried h)))
              (λ k e h.
                subst (CarryAll (handle name k) (ms k))
                  (sym (
                    of_session-append k r.arrived s.arrived
                    ∙ ap (λ l. l ++ of_session k s.arrived)
                        (of_session-other (handle name j) k r.first r.arrived e r.carried)))
                  h)
              i (s.sorted i);
        left = s.left;
        queued =
            queued_before r.arrived s.arrived (P.items c.server.msg_queue)
              (P.items r.after.server.msg_queue) (P.items s.after.server.msg_queue) s.queued
              r.queued;
        ordered = λ keeps i.
            s.ordered keeps i
            ∙ ap (λ l. l ++ sift (from_session i) s.arrived) (r.ordered keeps i)
            ∙ append_assoc (sift (from_session i) (P.items c.server.msg_queue))
                (sift (from_session i) r.arrived) (sift (from_session i) s.arrived)
            ∙ ap (λ l. sift (from_session i) (P.items c.server.msg_queue) ++ l)
                (sym (sift-append (from_session i) r.arrived s.arrived));
      }

  length-bytes_of :
      (i : ℕ) (arrivals : List Arrival)
      → length (bytes_of i arrivals) ≤ length (flatten (map (λ (j, chunk). chunk) arrivals))
  unfolding flatten
  length-bytes_of i [] = omega arith
  length-bytes_of i ((j, chunk) ∷ later) = ground (
    arith,
    length-bytes_of i later,
    length-append chunk (bytes_of i later),
    length-append chunk (flatten (map (λ (j, chunk). chunk) later)),
  )

  begin-Awaits :
      (m : Manager Q) (v : Server P) (arrivals : List Arrival) (ms : ℕ → List Message)
      (rest : ℕ → List ℕ)
      → IsPooled Q m
      → ((i : ℕ) → All IsMessage (ms i))
      → ((i : ℕ) → IsPartial (rest i))
      → ((i : ℕ) → bytes_of i arrivals ≡ flatten (frames (ms i)) ++ rest i)
      → length (flatten (map (λ (j, chunk). chunk) arrivals)) < fuel
      → Awaits Q P fuel fill name (begin Q P fill m v) arrivals ms rest
  unfolding begin start
  begin-Awaits m v arrivals ms rest w h partial e k = record {
    ready = λ i. start-IsReady Q fill m w;
    framed = λ i.
        subst (λ l. Framed l (frames (ms i)) (rest i)) (sym (e i))
          (Framed-frames (ms i) (IsMessage-IsShort (ms i) (h i)) (partial i));
    messages = h;
    enough = λ i. omega (arith, length-bytes_of i arrivals);
  }

  -- However the chunks of any number of sessions, each of at most 2048 bytes, come in turn to a
  -- machine that starts with pools that are as they should be, with a queue that keeps the order of
  -- one producer's packets, and with more fuel than there are bytes: if the bytes of each session
  -- are the packets of messages of fewer than 65528 bytes and with 32-bit numbers, and then bytes
  -- that are no packet yet, every read is answered by `parse_ok`; the packets that are queued for a
  -- session carry its messages, in their order and once each; its parser holds those last bytes;
  -- and `update`, with one round more than packets that wait, hands all these packets and those
  -- that were queued before to the dispatcher, each once, and no other; and the packets of each
  -- session that have a buffer come to the dispatcher as those that were queued before and then
  -- these, in the order of the messages.
  pub receive_all-dispatched :
      (m : Manager Q) (v : Server P) (arrivals : List Arrival) (ms : ℕ → List Message)
      (rest : ℕ → List ℕ)
      → KeepsOrder P from_session
      → IsPooled Q m
      → ((i : ℕ) → All IsMessage (ms i))
      → ((i : ℕ) → IsPartial (rest i))
      → ((i : ℕ) → bytes_of i arrivals ≡ flatten (frames (ms i)) ++ rest i)
      → All (λ (i, chunk). length chunk ≤ initial_size) arrivals
      → length (flatten (map (λ (j, chunk). chunk) arrivals)) < fuel
      → (c : Machine Q P) × (arrived ps : List Packet) × (q : P.Carrier) × (receive_all Q P fuel
            fill name
            (begin Q P fill m v)
            arrivals
          ≡ some c)
        × ((i : ℕ) → CarryAll (handle name i) (ms i) (of_session i arrived))
        × ((i : ℕ) → contents (c.streams i) ≡ rest i)
        × (update P (suc (length (P.items c.server.msg_queue))) true c.server.msg_queue
            ≡ some (ps, q))
        × Perm (arrived ++ P.items v.msg_queue) ps
        × (P.items q ≡ [])
        × ((i : ℕ)
            → sift (from_session i) ps
              ≡ sift (from_session i) (P.items v.msg_queue) ++ of_session i arrived)
  unfolding begin
  receive_all-dispatched m v arrivals ms rest keeps w h partial e small k =
      let s =
        receive_all-Sorted (begin Q P fill m v) arrivals ms rest small
          (begin-Awaits m v arrivals ms rest w h partial e k) in
      let (ps, q, updated, all, gone, later) =
        update_lem P (suc (length (P.items s.after.server.msg_queue))) s.after.server.msg_queue
          (omega arith) in
      (
        s.after,
        s.arrived,
        ps,
        q,
        s.runs,
        s.sorted,
        s.left,
        updated,
        Perm.trans (Perm.symm s.queued) all,
        gone,
        λ i.
            sym (later from_session keeps i)
            ∙ s.ordered keeps i
            ∙ ap (λ l. sift (from_session i) (P.items v.msg_queue) ++ l)
                (sift-of_session i s.arrived
                  ∙ CarryAll-sift (handle name i) i (ms i) (of_session i s.arrived) (==-self i)
                      (s.sorted i)),
      )
