-- ===== src/Net/TcpParser/Cuts.antt =====
-- The loop of engine/net/tcp_parser.cpp on any bytes, said without the parser.
use cxxprogram.Prelude.{
  List, [], ap, append-nil, arith, drop, false, inl, inr, length, length-drop, length-take, ltb,
  refl, subst, suc, sym, take, take-append-drop, true, zero, ℕ, ◌<◌, ◌∙◌, ◌∷◌, ◌≡◌, ◌≤◌, ◌⊎◌,
}
use cxxprogram.Net.Queue.{ConcurrentQueue}
use cxxprogram.Net.BufferStream.{contents, readable_length}
use cxxprogram.Net.BufferStream.Retrieve.{readable_length_lem, load-contents}
use cxxprogram.Net.BufferPool.{DataBuffer}
use cxxprogram.Net.TcpParser.{
  Parsing, Outcome, returns, runs_on, parse_ok, parse_error, decode_loop, round,
}
use cxxprogram.Net.TcpParser.Frames.{announced}
use cxxprogram.Net.TcpParser.Loop.{IsParsing, Took, frame_round, waits_step}
use cxxprogram.Net.TcpParser.Stuck.{decode_loop-zero_length, decode_loop-oversize}
use cxxprogram.Net.TcpParser.Reassembly.{Drained, Drained-cons}

-- How the loop ends: the next packet is not whole; or it is too large; or it announces no byte at all,
-- and the loop does not end.
pub data End : Type 0 where
  waits refuses spins : End

-- What bytes are cut into, the bytes that are left, and how that ends.
pub data Cut : List ℕ → List (List ℕ) → List ℕ → End → Type 0 where
  is_short : {bytes : List ℕ} → length bytes < 4 → Cut bytes [] bytes waits
  is_partial :
      {bytes : List ℕ}
      → 4 ≤ length bytes
      → length bytes < announced bytes
      → Cut bytes [] bytes waits
  is_large :
      {bytes : List ℕ}
      → 4 ≤ length bytes
      → announced bytes ≤ length bytes
      → 65536 ≤ announced bytes
      → Cut bytes [] bytes refuses
  is_none : {bytes : List ℕ} → 4 ≤ length bytes → announced bytes ≡ 0 → Cut bytes [] bytes spins
  is_packet :
      {bytes r : List ℕ} {fs : List (List ℕ)} {e : End}
      → 4 ≤ length bytes
      → 0 < announced bytes
      → announced bytes ≤ length bytes
      → announced bytes < 65536
      → Cut (drop (announced bytes) bytes) fs r e
      → Cut bytes (take (announced bytes) bytes ∷ fs) r e

cases :
    (len n : ℕ)
    → (len < 4)
      ⊎ ((4 ≤ len) × (n ≡ 0))
      ⊎ ((4 ≤ len) × (len < n))
      ⊎ ((4 ≤ len) × (n ≤ len) × (65536 ≤ n))
      ⊎ ((4 ≤ len) × (0 < n) × (n ≤ len) × (n < 65536))
cases len n = ground arith

module _ (Q : ConcurrentQueue DataBuffer) where
  abbrev pub ended : End → Parsing Q → Outcome Q
  ended waits p = returns parse_ok p
  ended refuses p = returns parse_error p
  ended spins p = runs_on

  -- A whole packet at the front takes one round, whatever its bytes are.
  cut_step :
      (fuel fill : ℕ) (p : Parsing Q)
      → IsParsing Q p
      → let bytes = contents p.stream in
        4 ≤ length bytes
        → announced bytes ≤ length bytes
        → announced bytes < 65536
        → (p' : Parsing Q) × (decode_loop Q (suc fuel) fill true p
            ≡ decode_loop Q fuel fill true p')
          × Took Q p (take (announced bytes) bytes) (drop (announced bytes) bytes) p'
  unfolding decode_loop
  cut_step fuel fill p v h whole fits =
      let bytes = contents p.stream in
      let n = announced bytes in
      let size : length (take n bytes) ≡ n = omega (arith, length-take n bytes) in
      let long : ltb (readable_length p.stream) 4 ≡ false =
        ground (arith, readable_length_lem p.stream v.valid) in
      let (p', runs, took) =
        frame_round Q fill p (take n bytes) (drop n bytes) v (sym (take-append-drop n bytes))
          (omega (arith, size)) in
      (
        p',
        rw (long, decode_loop, load-contents p.stream 4 v.valid h)
            (ap (λ k. round Q fill true p k (decode_loop Q fuel fill true)) (sym size)
              ∙ runs (decode_loop Q fuel fill true)),
        took,
      )

  Drained-nil : (p : Parsing Q) → IsParsing Q p → Drained Q p [] (contents p.stream) p
  Drained-nil p v = record {
    parsing = v;
    rest = refl;
    buffers = [];
    delivered = sym (append-nil p.delivered);
    carries = refl;
    headed = tt;
  }

  -- From a parser that is as it should be, with more fuel than there are bytes, and whatever the bytes
  -- are: the loop never reads or writes outside of its memory; it hands on the packets that the bytes
  -- are cut into, each with as many bytes as it announces, be they fewer than a header has; and it ends
  -- in front of a packet that is not whole, with an error at one of 65536 bytes or more, and never at
  -- one that announces no byte.
  pub decode_loop-Cut :
      (fuel fill : ℕ) (p : Parsing Q)
      → IsParsing Q p
      → length (contents p.stream) < fuel
      → (fs : List (List ℕ)) × (r : List ℕ) × (e : End) × (p' : Parsing Q) × Cut
          (contents p.stream)
          fs
          r
          e
        × (decode_loop Q fuel fill true p ≡ ended e p')
        × Drained Q p fs r p'
  decode_loop-Cut zero fill p v h = absurd (omega arith)
  decode_loop-Cut (suc fuel) fill p v h =
      let bytes = contents p.stream in
      elim (cases (length bytes) (announced bytes)) [
        | inl short ↦ (
          [],
          bytes,
          waits,
          p,
          is_short short,
          waits_step Q fill fuel p v (inl short),
          Drained-nil p v,
        )
        | inr (inl (four, nothing)) ↦ (
          [],
          bytes,
          spins,
          p,
          is_none four nothing,
          decode_loop-zero_length Q (suc fuel) fill p v four nothing,
          Drained-nil p v,
        )
        | inr (inr (inl (four, more))) ↦ (
          [],
          bytes,
          waits,
          p,
          is_partial four more,
          waits_step Q fill fuel p v (inr (four, more)),
          Drained-nil p v,
        )
        | inr (inr (inr (inl (four, whole, big)))) ↦ (
          [],
          bytes,
          refuses,
          p,
          is_large four whole big,
          decode_loop-oversize Q fuel fill p v four big whole,
          Drained-nil p v,
        )
        | inr (inr (inr (inr (four, some_bytes, whole, fits)))) ↦
            let (p', runs, took) = cut_step fuel fill p v four whole fits in
            let (fs, r, e, q, cut, done, d) =
              decode_loop-Cut fuel fill p' took.parsing
                (omega (arith, ap length took.rest, length-drop (announced bytes) bytes)) in
            (
              take (announced bytes) bytes ∷ fs,
              r,
              e,
              q,
              is_packet four some_bytes whole fits (subst (λ b. Cut b fs r e) took.rest cut),
              runs ∙ done,
              Drained-cons Q took d,
            )
      ]
