-- ===== src/Net/TcpParser/Reassembly.antt =====
-- `tcp_parser::recv_and_decode` (engine/net/tcp_parser.cpp), on one chunk and on a connection.
use mathlib.Core.List.{flatten, map-append}
use cxxprogram.Prelude.{
  List, [], ap, append-nil, append_assoc, arith, inl, inr, length, length-append, length-replicate,
  map, refl, subst, suc, sym, true, zero, ℕ, ◌++◌, ◌-◌, ◌<◌, ◌^◌, ◌∙◌, ◌∷◌, ◌≡◌, ◌≤◌,
}
use cxxprogram.Net.Queue.{ConcurrentQueue}
use cxxprogram.Net.BufferStream.{contents}
use cxxprogram.Net.BufferStream.Retrieve.{length-contents}
use cxxprogram.Net.BufferStream.Append.{append_lem}
use cxxprogram.Net.BufferPool.{DataBuffer, Manager}
use cxxprogram.Net.BufferPool.Buffer.{payload}
use cxxprogram.Net.BufferPool.Alloc.{IsPooled}
use cxxprogram.Net.TcpParser.{
  Parsing, returns, parse_ok, decode_loop, header_size, initial_size, recv_and_decode, Outcome,
  start,
}
use cxxprogram.Net.TcpParser.Frames.{
  IsPartial, Framed, partial, packet, Framed-split, Framed-partial, Framed-length,
}
use cxxprogram.Net.TcpParser.Loop.{IsParsing, Took, frame_step, partial_step}

abbrev pub All {ℓ} : {A : Type ℓ} → (A → Type 0) → List A → Type 0
All P [] = Unit {0}
All P (x ∷ xs) = P x × All P xs

-- The lengths of a buffer that is handed on.
abbrev pub Headed : DataBuffer → Type 0
Headed b = (b.header_length ≡ header_size) × (b.total_length ≡ length (payload b))

All-append {ℓ} :
    {A : Type ℓ} (P : A → Type 0) (xs ys : List A) → All P xs → All P ys → All P (xs ++ ys)
All-append P [] ys hx hy = hy
All-append P (x ∷ xs) ys hx hy = (hx.0, All-append P xs ys hx.1 hy)

module _ (Q : ConcurrentQueue DataBuffer) where
  -- The parser has handed on the packets `fs`, and keeps the bytes `r`.
  pub record Drained (p : Parsing Q) (fs : List (List ℕ)) (r : List ℕ) (p' : Parsing Q)
      : Type 0 where
    pub parsing : IsParsing Q p'
    pub rest : contents p'.stream ≡ r
    pub buffers : List DataBuffer
    pub delivered : p'.delivered ≡ p.delivered ++ buffers
    pub carries : map payload buffers ≡ fs
    pub headed : All Headed buffers

  pub Drained-cons :
      {p p' q : Parsing Q} {f bytes r : List ℕ} {fs : List (List ℕ)}
      → Took Q p f bytes p'
      → Drained p' fs r q
      → Drained p (f ∷ fs) r q
  Drained-cons {p = p} took d = record {
    parsing = d.parsing;
    rest = d.rest;
    buffers = took.buffer ∷ d.buffers;
    delivered =
        d.delivered
        ∙ ap (λ l. l ++ d.buffers) took.delivered
        ∙ append_assoc p.delivered (took.buffer ∷ []) d.buffers;
    carries = cc (took.carries, d.carries);
    headed = ((took.headed, took.filled), d.headed);
  }

  decode_loop_lem :
      (fuel fill : ℕ) (p : Parsing Q) {bytes r : List ℕ} {fs : List (List ℕ)}
      → IsParsing Q p
      → p.stream.read ≡ 0
      → contents p.stream ≡ bytes
      → Framed bytes fs r
      → length bytes < fuel
      → (p' : Parsing Q) × (decode_loop Q fuel fill true p ≡ returns parse_ok p')
        × Drained p fs r p'
        × (p'.stream.size ≡ p.stream.size)
        × (p'.stream.read ≡ 0)
        × IsPartial r
  decode_loop_lem zero fill p v z e fr h = absurd (omega arith)
  decode_loop_lem (suc fuel) fill p v z e (partial w) h = (
    p,
    partial_step Q fill fuel p v (rw e w),
    record {
      parsing = v;
      rest = e;
      buffers = [];
      delivered = sym (append-nil p.delivered);
      carries = refl;
      headed = tt;
    },
    refl,
    z,
    w,
  )
  decode_loop_lem (suc fuel) fill p v z e (packet {f = f} {bytes = bytes} k fr) h =
      let (p', runs, took) = frame_step Q fill p f bytes v e k in
      let (q, done, d, size, front, w) =
        decode_loop_lem fuel fill p' took.parsing took.front took.rest fr
          (omega (arith, length-append f bytes, k.headed)) in
      (q, runs fuel ∙ done, Drained-cons took d, size ∙ took.size, front, w)

  -- A parser between two calls: what is left is not a packet yet, and stands at the front of an
  -- array whose size is in bounds.
  pub record IsReady (p : Parsing Q) : Type 0 where
    pub parsing : IsParsing Q p
    pub front : p.stream.read ≡ 0
    pub waiting : IsPartial (contents p.stream)
    pub roomy : initial_size ≤ p.stream.size
    pub bounded : p.stream.size ≤ 2 ^ 18

  ready_short : (p : Parsing Q) → IsReady p → p.stream.write < 65536
  ready_short p v =
      let n : length (contents p.stream) ≡ p.stream.write - p.stream.read =
        length-contents p.stream v.parsing.valid in
      go v.waiting n
    where
      go :
          IsPartial (contents p.stream)
          → length (contents p.stream) ≡ p.stream.write - p.stream.read
          → p.stream.write < 65536
      go (inl h) n = omega (arith, v.front)
      go (inr h) n = omega (arith, v.front)

  -- One chunk of at most 2048 bytes, to a parser between two calls and with more fuel than there
  -- are bytes, where the bytes that it holds and those of the chunk are packets and then the
  -- beginning of one: the array is not overrun, the packets that the chunk completes are handed on in
  -- their order, nothing else is, and the parser is between two calls again.
  pub recv_and_decode_lem :
      (fuel fill : ℕ) (p : Parsing Q) (chunk : List ℕ) {r : List ℕ} {fs : List (List ℕ)}
      → IsReady p
      → length chunk ≤ initial_size
      → Framed (contents p.stream ++ chunk) fs r
      → length (contents p.stream ++ chunk) < fuel
      → (p' : Parsing Q) × (recv_and_decode Q fuel fill true p chunk ≡ returns parse_ok p')
        × IsReady p'
        × Drained p fs r p'
  unfolding recv_and_decode
  recv_and_decode_lem fuel fill p chunk v h fr k =
      let short = ready_short p v in
      let (s, put, a) =
        append_lem fill p.stream chunk v.parsing.valid (omega (arith, v.bounded))
          (omega (arith, v.roomy)) in
      let q = record p { stream = s } in
      let (p', done, d, size, front, w) =
        decode_loop_lem fuel fill q (record { valid = a.valid; pooled = v.parsing.pooled })
          (a.start ∙ v.front) a.appended fr k in
      (
        p',
        rw (put, recv_and_decode) done,
        record {
          parsing = d.parsing;
          front = front;
          waiting = rw d.rest w;
          roomy = omega (arith, a.sizes, size, v.roomy);
          bounded = omega (arith, a.sizes, size, v.bounded, short);
        },
        record {
          parsing = d.parsing;
          rest = d.rest;
          buffers = d.buffers;
          delivered = d.delivered;
          carries = d.carries;
          headed = d.headed;
        },
      )

  -- The chunks of a connection, one call of `recv_and_decode` each, up to the first refusal.
  pub recv_all : ℕ → ℕ → Parsing Q → List (List ℕ) → Outcome Q
  recv_all fuel fill p [] = returns parse_ok p
  recv_all fuel fill p (chunk ∷ chunks) = elim (recv_and_decode Q fuel fill true p chunk) [
    | returns parse_ok p' ↦ recv_all fuel fill p' chunks
    | o ↦ o
  ]

  Drained-trans :
      (p q t : Parsing Q) {fs gs : List (List ℕ)} {r₁ r : List ℕ}
      → Drained p fs r₁ q
      → Drained q gs r t
      → Drained p (fs ++ gs) r t
  Drained-trans p q t {fs} {gs} a b = record {
    parsing = b.parsing;
    rest = b.rest;
    buffers = a.buffers ++ b.buffers;
    delivered =
        b.delivered
        ∙ ap (λ l. l ++ b.buffers) a.delivered
        ∙ append_assoc p.delivered a.buffers b.buffers;
    carries =
        map-append payload a.buffers b.buffers
        ∙ ap (λ l. l ++ map payload b.buffers) a.carries
        ∙ ap (λ l. fs ++ l) b.carries;
    headed = All-append Headed a.buffers b.buffers a.headed b.headed;
  }

  -- Chunks of at most 2048 bytes each, whose bytes behind those already held are the packets `fs`
  -- and then `r`, which is no packet yet: with more fuel than there are bytes, every call returns
  -- `parse_ok`, the packets are handed on in their order, and `r` is kept.
  pub recv_all-Drained :
      (fuel fill : ℕ) (chunks : List (List ℕ)) (p : Parsing Q) {r : List ℕ} {fs : List (List ℕ)}
      → IsReady p
      → All (λ chunk. length chunk ≤ initial_size) chunks
      → Framed (contents p.stream ++ flatten chunks) fs r
      → length (contents p.stream ++ flatten chunks) < fuel
      → (p' : Parsing Q) × (recv_all fuel fill p chunks ≡ returns parse_ok p')
        × IsReady p'
        × Drained p fs r p'
  unfolding recv_all flatten
  recv_all-Drained fuel fill [] p {r} {fs} v small fr k =
      let (none_left, all_left) =
        Framed-partial (subst (λ b. Framed b fs r) (append-nil (contents p.stream)) fr) v.waiting in
      (
        p,
        refl,
        v,
        record {
          parsing = v.parsing;
          rest = sym all_left;
          buffers = [];
          delivered = sym (append-nil p.delivered);
          carries = sym none_left;
          headed = tt;
        },
      )
  recv_all-Drained fuel fill (chunk ∷ chunks) p {r} {fs} v small fr k =
      let cut : contents p.stream ++ flatten (chunk ∷ chunks)
          ≡ (contents p.stream ++ chunk) ++ flatten chunks =
        sym (append_assoc (contents p.stream) chunk (flatten chunks)) in
      let (fs₁, fs₂, r₁, first, later, joined) =
        Framed-split (contents p.stream ++ chunk) (flatten chunks) cut fr in
      let size = ap length cut ∙ length-append (contents p.stream ++ chunk) (flatten chunks) in
      let (q, now, ready, d) =
        recv_and_decode_lem fuel fill p chunk v small.0 first (omega arith) in
      let kept : length r₁ ≤ length (contents p.stream ++ chunk) = Framed-length first in
      let (t, rest, ready', d') =
        recv_all-Drained fuel fill chunks q ready small.1
          (subst (λ b. Framed (b ++ flatten chunks) fs₂ r) (sym d.rest) later)
          (omega (arith, ap length d.rest, length-append (contents q.stream) (flatten chunks))) in
      (
        t,
        rw (now, recv_all) rest,
        ready',
        subst (λ l. Drained p l r t) (sym joined) (Drained-trans p q t d d'),
      )

  -- A new parser is ready.
  pub start-IsReady : (fill : ℕ) (m : Manager Q) → IsPooled Q m → IsReady (start Q fill m)
  unfolding start
  start-IsReady fill m w = record {
    parsing = record {
      valid = record {
        backed = length-replicate initial_size fill;
        read_le = omega arith;
        write_le = omega arith;
        small = omega arith;
      };
      pooled = w;
    };
    front = refl;
    waiting = inl (omega arith);
    roomy = omega arith;
    bounded = omega arith;
  }
