-- ===== src/Net/EndToEnd/Sessions/Reading.antt =====
-- What the sessions of one machine read reaches the dispatcher (engine/net: tcp_session.h,
-- tcp_parser.cpp, server_base.cpp).
use mathlib.Core.List.{Perm}
use cxxprogram.Prelude.{
  List, [], ap, append_assoc, arith, false, if◌then◌else◌, length, length-append, map, refl, some,
  subst, sym, true, ℕ, ◌++◌, ◌+◌, ◌<◌, ◌==◌, ◌∙◌, ◌∷◌, ◌≡◌, ◌≤◌,
}
use cxxprogram.Net.Queue.{ConcurrentQueue, KeepsOrder, sift}
use cxxprogram.Net.BufferStream.{contents}
use cxxprogram.Net.BufferPool.{DataBuffer, Manager}
use cxxprogram.Net.BufferPool.Alloc.{IsPooled}
use cxxprogram.Net.BufferPool.Buffer.{payload}
use cxxprogram.Net.TcpParser.{Parsing, initial_size, parse_ok, recv_and_decode, returns}
use cxxprogram.Net.TcpParser.Frames.{Framed, Framed-length, Framed-split}
use cxxprogram.Net.TcpParser.Reassembly.{All, Headed, IsReady, recv_and_decode_lem}
use cxxprogram.Net.Server.{Packet, Server}
use cxxprogram.Net.Server.Sessions.{}
use cxxprogram.Net.EndToEnd.Stream.{Message, frames}
use cxxprogram.Net.EndToEnd.Dispatch.{
  CarryAll, from_session, IsMessage, on_messages, on_messages_lem,
}
use cxxprogram.Net.EndToEnd.Sessions.{
  Arrival, Machine, bytes_of, handle, parsing, receive, set_stream,
}
use cxxprogram.Net.EndToEnd.Sessions.Sorting.{==-self, told_apart, frames-split, All-split}

module _ (Q : ConcurrentQueue DataBuffer) (P : ConcurrentQueue Packet) (fuel fill : ℕ)
    (name : ℕ → ℕ) where
  -- What each session holds and what comes make up its messages and a rest.
  pub record Awaits (c : Machine Q P) (later : List Arrival) (ms : ℕ → List Message)
      (rest : ℕ → List ℕ) : Type 0 where
    pub ready : (i : ℕ) → IsReady Q (parsing Q P c i)
    pub framed :
        (i : ℕ) → Framed (contents (c.streams i) ++ bytes_of i later) (frames (ms i)) (rest i)
    pub messages : (i : ℕ) → All IsMessage (ms i)
    pub enough : (i : ℕ) → length (contents (c.streams i) ++ bytes_of i later) < fuel

  -- A parser is as ready with other pools that are as they should be.
  IsReady-pools :
      (p : Parsing Q) (m : Manager Q)
      → IsReady Q p
      → IsPooled Q m
      → IsReady Q (record { stream = p.stream; pools = m; delivered = [] })
  IsReady-pools p m v w = record {
    parsing = record { valid = v.parsing.valid; pooled = w };
    front = v.front;
    waiting = v.waiting;
    roomy = v.roomy;
    bounded = v.bounded;
  }

  -- One read: some messages of its session are queued, and the others are awaited.
  pub record Received (c : Machine Q P) (j : ℕ) (chunk : List ℕ) (later : List Arrival)
      (ms : ℕ → List Message) (rest : ℕ → List ℕ) : Type 0 where
    pub after : Machine Q P
    pub arrived : List Packet
    pub first : List Message
    pub others : List Message
    pub runs : receive Q P fuel fill name c (j, chunk) ≡ some (parse_ok, after)
    pub cut : ms j ≡ first ++ others
    pub carried : CarryAll (handle name j) first arrived
    pub queued : Perm (P.items after.server.msg_queue) (arrived ++ P.items c.server.msg_queue)
    pub ordered :
        KeepsOrder P from_session
        → (i : ℕ)
        → sift (from_session i) (P.items after.server.msg_queue)
          ≡ sift (from_session i) (P.items c.server.msg_queue) ++ sift (from_session i) arrived
    pub awaits : Awaits after later (λ i. if j == i then others else ms i) rest

  -- Bytes of another session change nothing of what one awaits.
  others_later :
      (S : List ℕ → Type 0) (j i : ℕ) (chunk held : List ℕ) (later : List Arrival)
      → (j == i) ≡ false
      → S (held ++ bytes_of i ((j, chunk) ∷ later))
      → S (held ++ bytes_of i later)
  others_later S j i chunk held later e h =
      subst (λ b. S (held ++ (if b then chunk ++ bytes_of i later else bytes_of i later))) e h

  own_later :
      (S : List ℕ → Type 0) (j : ℕ) (chunk held : List ℕ) (later : List Arrival)
      → S (held ++ bytes_of j ((j, chunk) ∷ later))
      → S ((held ++ chunk) ++ bytes_of j later)
  own_later S j chunk held later h = subst S (sym (append_assoc held chunk (bytes_of j later))) (
      subst (λ b. S (held ++ (if b then chunk ++ bytes_of j later else bytes_of j later)))
        (==-self j) h)

  Awaits-read :
      (c : Machine Q P) (j : ℕ) (chunk : List ℕ) (later : List Arrival) (ms : ℕ → List Message)
      (rest : ℕ → List ℕ) (p : Parsing Q) (v' : Server P) (others : List Message)
      → Awaits c ((j, chunk) ∷ later) ms rest
      → IsReady Q p
      → Framed (contents p.stream ++ bytes_of j later) (frames others) (rest j)
      → All IsMessage others
      → length (contents p.stream ++ bytes_of j later) < fuel
      → Awaits
          (record { streams = set_stream c.streams j p.stream; pools = p.pools; server = v' })
          later
          (λ i. if j == i then others else ms i)
          rest
  Awaits-read c j chunk later ms rest p v' others v ready framed messages enough = record {
    ready =
        told_apart j
          (λ i b. IsReady Q (record {
            stream = if b then p.stream else c.streams i;
            pools = p.pools;
            delivered = [];
          }))
          (IsReady-pools p p.pools ready ready.parsing.pooled)
          (λ i e. IsReady-pools (parsing Q P c i) p.pools (v.ready i) ready.parsing.pooled);
    framed =
        told_apart j
          (λ i b.
            Framed (contents (if b then p.stream else c.streams i) ++ bytes_of i later)
              (frames (if b then others else ms i)) (rest i))
          framed
          (λ i e.
            others_later (λ l. Framed l (frames (ms i)) (rest i)) j i chunk (contents (c.streams i))
              later e (v.framed i));
    messages =
        told_apart j (λ i b. All IsMessage (if b then others else ms i)) messages
          (λ i e. v.messages i);
    enough =
        told_apart j
          (λ i b.
            length (contents (if b then p.stream else c.streams i) ++ bytes_of i later) < fuel)
          enough
          (λ i e.
            others_later (λ l. length l < fuel) j i chunk (contents (c.streams i)) later e
              (v.enough i));
  }

  receive-ok :
      (c : Machine Q P) (j : ℕ) (chunk : List ℕ) (p : Parsing Q) (v' : Server P)
      → recv_and_decode Q fuel fill true (parsing Q P c j) chunk ≡ returns parse_ok p
      → on_messages P c.server (handle name j) p.delivered ≡ some v'
      → receive Q P fuel fill name c (j, chunk)
        ≡ some (
          parse_ok,
          record { streams = set_stream c.streams j p.stream; pools = p.pools; server = v' },
        )
  unfolding receive
  receive-ok c j chunk p v' e f = rw (e, receive, f) refl

  pub receive_lem :
      (c : Machine Q P) (j : ℕ) (chunk : List ℕ) (later : List Arrival) (ms : ℕ → List Message)
      (rest : ℕ → List ℕ)
      → length chunk ≤ initial_size
      → Awaits c ((j, chunk) ∷ later) ms rest
      → Received c j chunk later ms rest
  receive_lem c j chunk later ms rest short v =
      let held = contents (c.streams j) in
      let (fs₁, fs₂, r₁, now, next, joined) =
        Framed-split (held ++ chunk) (bytes_of j later) refl
          (own_later (λ l. Framed l (frames (ms j)) (rest j)) j chunk held later (v.framed j)) in
      let size = length-append (held ++ chunk) (bytes_of j later) in
      let enough : length (held ++ chunk) + length (bytes_of j later) < fuel =
        subst (λ n. n < fuel) size
          (own_later (λ l. length l < fuel) j chunk held later (v.enough j)) in
      let (p, decoded, ready, d) =
        recv_and_decode_lem Q fuel fill (parsing Q P c j) chunk (v.ready j) short now
          (omega (arith, enough)) in
      let (ms₁, ms₂, cut, first, others) = frames-split (ms j) fs₁ fs₂ joined in
      let (messages₁, messages₂) = All-split ms₁ ms₂ (subst (All IsMessage) cut (v.messages j)) in
      let (v', arrived, queues, carried, _, perm, order) =
        on_messages_lem P c.server (handle name j) p.delivered ms₁
          (ap (map payload) d.delivered ∙ d.carries ∙ sym first)
          (subst (All Headed) (sym d.delivered) d.headed) messages₁ in
      record {
        after = record { streams = set_stream c.streams j p.stream; pools = p.pools; server = v' };
        arrived = arrived;
        first = ms₁;
        others = ms₂;
        runs = receive-ok c j chunk p v' decoded queues;
        cut = cut;
        carried = carried;
        queued = perm;
        ordered = λ keeps i. order from_session keeps i;
        awaits =
            Awaits-read c j chunk later ms rest p v' ms₂ v ready
              (subst (λ l. Framed l (frames ms₂) (rest j))
                (ap (λ l. l ++ bytes_of j later) (sym d.rest))
                (subst (λ gs. Framed (r₁ ++ bytes_of j later) gs (rest j)) (sym others) next))
              messages₂
              (omega (
                arith,
                enough,
                Framed-length now,
                ap length d.rest,
                length-append (contents p.stream) (bytes_of j later),
              ));
      }
