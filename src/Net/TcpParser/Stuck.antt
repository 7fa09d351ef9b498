-- ===== src/Net/TcpParser/Stuck.antt =====
-- The lengths 0 and from 65536 on, in the loop of engine/net/tcp_parser.cpp.
use cxxprogram.Prelude.{
  [], arith, false, length, ltb, none, refl, suc, true, zero, ℕ, ◌<◌, ◌^◌, ◌∙◌, ◌≡◌, ◌≤◌,
}
use cxxprogram.Prelude.Int.{pos}
use cxxprogram.Net.Queue.{ConcurrentQueue}
use cxxprogram.Net.BufferStream.{contents, readable_length}
use cxxprogram.Net.BufferStream.Retrieve.{readable_length_lem, load-contents, length-contents}
use cxxprogram.Net.BufferPool.{DataBuffer, alloc, size_class, to_int}
use cxxprogram.Net.BufferPool.Alloc.{size_class-none_iff}
use cxxprogram.Net.TcpParser.{Parsing, returns, runs_on, parse_error, decode_loop, round}
use cxxprogram.Net.TcpParser.Frames.{announced}
use cxxprogram.Net.TcpParser.Loop.{IsParsing, frame_round}

module _ (Q : ConcurrentQueue DataBuffer) where
  -- A packet that announces the length 0 is taken again and again: no number of rounds is enough.
  pub decode_loop-zero_length :
      (fuel fill : ℕ) (p : Parsing Q)
      → IsParsing Q p
      → 4 ≤ length (contents p.stream)
      → announced (contents p.stream) ≡ 0
      → decode_loop Q fuel fill true p ≡ runs_on
  unfolding decode_loop
  decode_loop-zero_length zero fill p v h z = refl
  decode_loop-zero_length (suc fuel) fill p v h z =
      let long : ltb (readable_length p.stream) 4 ≡ false =
        ground (arith, readable_length_lem p.stream v.valid) in
      let read = load-contents p.stream 4 v.valid h in
      let (p', runs, took) = frame_round Q fill p [] (contents p.stream) v refl (omega arith) in
      rw (long, decode_loop, read, z)
        (runs (decode_loop Q fuel fill true)
          ∙ decode_loop-zero_length fuel fill p' took.parsing (rw took.rest h) (rw took.rest z))

  alloc-none :
      (fill n : ℕ) (p : Parsing Q) → size_class (pos n) ≡ none → alloc Q fill p.pools (pos n) ≡ none
  unfolding alloc
  alloc-none fill n p h = rw (h, alloc)

  -- A packet of 65536 bytes or more is refused once it is whole. Nothing is taken from the stream
  -- and nothing delivered, so the parser refuses again on every later call.
  pub decode_loop-oversize :
      (fuel fill : ℕ) (p : Parsing Q)
      → IsParsing Q p
      → 4 ≤ length (contents p.stream)
      → 65536 ≤ announced (contents p.stream)
      → announced (contents p.stream) ≤ length (contents p.stream)
      → decode_loop Q (suc fuel) fill true p ≡ returns parse_error p
  unfolding decode_loop round
  decode_loop-oversize fuel fill p v h big whole =
      let n = announced (contents p.stream) in
      let long : ltb (readable_length p.stream) 4 ≡ false =
        ground (arith, readable_length_lem p.stream v.valid) in
      let there : ltb (readable_length p.stream) n ≡ false =
        ground (arith, readable_length_lem p.stream v.valid) in
      let short : n < 2 ^ 31 = omega (arith, length-contents p.stream v.valid, v.valid.small) in
      let int : to_int n ≡ pos n = ground arith in
      let refused = alloc-none fill n p ((size_class-none_iff n).1 big) in
      rw (long, decode_loop, load-contents p.stream 4 v.valid h, there, round, int, refused)
