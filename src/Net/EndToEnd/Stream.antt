-- ===== src/Net/EndToEnd/Stream.antt =====
-- The bytes that `server_base::send` makes of messages, at the parser of another machine
-- (engine/net/server_base.cpp, tcp_parser.cpp).
use mathlib.Core.List.{flatten}
use cxxprogram.Prelude.{
  List, [], ap, append-nil, append_assoc, arith, inl, length, map, subst, sym, ℕ, ◌++◌, ◌<◌, ◌∙◌,
  ◌∷◌, ◌≡◌, ◌≤◌,
}
use cxxprogram.Net.Queue.{ConcurrentQueue}
use cxxprogram.Net.BufferStream.{contents}
use cxxprogram.Net.BufferPool.{DataBuffer, Manager}
use cxxprogram.Net.BufferPool.Alloc.{IsPooled}
use cxxprogram.Net.BufferPool.Buffer.{payload}
use cxxprogram.Net.TcpParser.{Parsing, start, returns, parse_ok, initial_size}
use cxxprogram.Net.TcpParser.Frames.{Framed, IsPartial, partial, packet}
use cxxprogram.Net.TcpParser.Reassembly.{All, Headed, recv_all, recv_all-Drained, start-IsReady}
use cxxprogram.Net.Server.Framing.{frame, frame-IsFrame}

-- A message: its number and its bytes.
abbrev pub Message : Type 0
Message = ℕ × List ℕ

abbrev pub frames : List Message → List (List ℕ)
frames = map (λ (msgid, body). frame msgid body)

abbrev pub IsShort : Message → Type 0
IsShort (msgid, body) = length body < 65528

-- The packets of messages, and then bytes that are no packet yet.
pub Framed-frames :
    (ms : List Message) {r : List ℕ}
    → All IsShort ms
    → IsPartial r
    → Framed (flatten (frames ms) ++ r) (frames ms) r
unfolding flatten
Framed-frames [] h w = partial w
Framed-frames ((msgid, body) ∷ ms) {r} h w =
    subst (λ b. Framed b (frames ((msgid, body) ∷ ms)) r)
      (sym (append_assoc (frame msgid body) (flatten (frames ms)) r))
      (packet (frame-IsFrame msgid body h.0) (Framed-frames ms h.1 w))

-- Messages of fewer than 65528 bytes arrive whole, in their order and once each, at a parser that
-- starts afresh with pools that are as they should be and more fuel than there are bytes, however the
-- connection cuts the bytes into chunks of at most 2048; the buffers handed on carry the packets, with
-- the lengths of the header and of the whole set, and no bytes are left.
pub recv_all-frames :
    (Q : ConcurrentQueue DataBuffer) (fuel fill : ℕ) (m : Manager Q) (ms : List Message)
    (chunks : List (List ℕ))
    → IsPooled Q m
    → All IsShort ms
    → All (λ chunk. length chunk ≤ initial_size) chunks
    → flatten chunks ≡ flatten (frames ms)
    → length (flatten chunks) < fuel
    → (p : Parsing Q) × (recv_all Q fuel fill (start Q fill m) chunks ≡ returns parse_ok p)
      × (map payload p.delivered ≡ frames ms)
      × All Headed p.delivered
      × (contents p.stream ≡ [])
unfolding start
recv_all-frames Q fuel fill m ms chunks w h small e k =
    let (p, done, ready, d) =
      recv_all-Drained Q fuel fill chunks (start Q fill m) (start-IsReady Q fill m w) small
        (subst (λ b. Framed b (frames ms) []) (sym (e ∙ sym (append-nil (flatten (frames ms)))))
          (Framed-frames ms h (inl (omega arith))))
        k in
    (
      p,
      done,
      ap (map payload) d.delivered ∙ d.carries,
      subst (All Headed) (sym d.delivered) d.headed,
      d.rest,
    )
