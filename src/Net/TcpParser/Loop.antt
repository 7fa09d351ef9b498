-- ===== src/Net/TcpParser/Loop.antt =====
-- The `while` loop of `recv_and_decode`: one packet a round, and where it stops.
use cxxprogram.Prelude.{
  List, Option, [], ap, arith, drop, drop-append_eq, false, inl, inr, length, length-append, ltb,
  none, refl, some, suc, sym, take, take-append_eq, take-append_le, true, ℕ, ◌++◌, ◌<◌, ◌∙◌, ◌∷◌,
  ◌≡◌, ◌≤◌, ◌⊎◌,
}
use cxxprogram.Prelude.Int.{pos}
use cxxprogram.Net.Queue.{ConcurrentQueue}
use cxxprogram.Net.BufferStream.{IsValid, contents, load, readable_length}
use cxxprogram.Net.BufferStream.Retrieve.{readable_length_lem, load-contents, retrieve-offset_read}
use cxxprogram.Net.BufferPool.{DataBuffer, Manager, to_int, set_header_length, size_class}
use cxxprogram.Net.BufferPool.Alloc.{
  IsClean, IsPooled, alloc-IsClean, size_class-fits, size_class-none_iff,
}
use cxxprogram.Net.BufferPool.Buffer.{payload, copy_from_lem}
use cxxprogram.Net.TcpParser.{
  Parsing, Outcome, returns, parse_ok, header_size, take_packet, round, decode_loop,
}
use cxxprogram.Net.TcpParser.Frames.{IsFrame, IsPartial, announced}

module _ (Q : ConcurrentQueue DataBuffer) where
  pub record IsParsing (p : Parsing Q) : Type 0 where
    pub valid : IsValid p.stream
    pub pooled : IsPooled Q p.pools

  -- What one round does with the packet `f` in front of `bytes`.
  pub record Took (p : Parsing Q) (f bytes : List ℕ) (p' : Parsing Q) : Type 0 where
    pub parsing : IsParsing p'
    pub rest : contents p'.stream ≡ bytes
    pub size : p'.stream.size ≡ p.stream.size
    pub front : p'.stream.read ≡ 0
    pub buffer : DataBuffer
    pub delivered : p'.delivered ≡ p.delivered ++ buffer ∷ []
    pub carries : payload buffer ≡ f
    pub headed : buffer.header_length ≡ header_size
    pub filled : buffer.total_length ≡ length (payload buffer)

  set-backed :
      (b : DataBuffer) (c : ℕ)
      → IsClean c b
      → length (set_header_length b header_size).buffer
        ≡ (set_header_length b header_size).alloc_size
  unfolding set_header_length
  set-backed b c k = omega arith

  set-roomy :
      (b : DataBuffer) (c n : ℕ)
      → IsClean c b
      → n ≤ c
      → n ≤ (set_header_length b header_size).alloc_size
  unfolding set_header_length
  set-roomy b c n k h = omega arith

  set-header : (b : DataBuffer) → (set_header_length b header_size).header_length ≡ header_size
  unfolding set_header_length
  set-header b = refl

  take_packet_lem :
      (p : Parsing Q) (f bytes : List ℕ) (b : DataBuffer) (m : Manager Q) {c : ℕ}
      → IsValid p.stream
      → contents p.stream ≡ f ++ bytes
      → IsClean c b
      → length f ≤ c
      → IsPooled Q m
      → (p' : Parsing Q) × (take_packet Q true p b m (length f) ≡ some p') × Took p f bytes p'
  unfolding take_packet
  take_packet_lem p f bytes b m {c} v e k h w =
      let whole : length f ≤ length (contents p.stream) =
        omega (arith, ap length e, length-append f bytes) in
      let read : load p.stream.array p.stream.read (length f) ≡ some f =
        load-contents p.stream (length f) v whole
        ∙ ap some (ap (take (length f)) e ∙ take-append_eq (length f) f bytes refl) in
      let (t, moved, vt, ct, front, size) = retrieve-offset_read p.stream (length f) v whole in
      let headed = set_header_length b header_size in
      let (b', copied, carries, total, header, _, _) =
        copy_from_lem headed f (set-backed b c k) (set-roomy b c (length f) k h) in
      (
        record { stream = t; pools = m; delivered = p.delivered ++ b' ∷ [] },
        rw (read, moved, copied),
        record {
          parsing = record { valid = vt; pooled = w };
          rest = ct ∙ ap (drop (length f)) e ∙ drop-append_eq (length f) f bytes refl;
          size = size;
          front = front;
          buffer = b';
          delivered = refl;
          carries = carries;
          headed = header ∙ set-header b;
          filled = total ∙ ap length (sym carries);
        },
      )

  pub frame_round :
      (fill : ℕ) (p : Parsing Q) (f bytes : List ℕ)
      → IsParsing p
      → contents p.stream ≡ f ++ bytes
      → length f < 65536
      → (p' : Parsing Q) × ((k : Parsing Q → Outcome Q) → round Q fill true p (length f) k ≡ k p')
        × Took p f bytes p'
  unfolding round
  frame_round fill p f bytes v e k = go (size_class (pos (length f))) refl
    where
      int : to_int (length f) ≡ pos (length f)
      int = ground arith

      there : ltb (readable_length p.stream) (length f) ≡ false
      there =
          ground (arith, readable_length_lem p.stream v.valid, ap length e, length-append f bytes)

      go :
          (o : Option ℕ)
          → size_class (pos (length f)) ≡ o
          → (p' : Parsing Q) × ((k : Parsing Q → Outcome Q)
              → round Q fill true p (length f) k ≡ k p')
            × Took p f bytes p'
      go none no_class = absurd (omega (arith, (size_class-none_iff (length f)).0 no_class))
      go (some c) class =
          let (b, m, given, clean, w) = alloc-IsClean Q fill (length f) p.pools v.pooled class in
          let (p', taken, took) =
            take_packet_lem p f bytes b m v.valid e clean
              (omega (arith, size_class-fits (length f) class)) w in
          (p', λ k. rw (there, int, given, taken), took)

  -- A packet at the front of the stream takes one round.
  pub frame_step :
      (fill : ℕ) (p : Parsing Q) (f bytes : List ℕ)
      → IsParsing p
      → contents p.stream ≡ f ++ bytes
      → IsFrame f
      → (p' : Parsing Q) × ((fuel : ℕ)
          → decode_loop Q (suc fuel) fill true p ≡ decode_loop Q fuel fill true p')
        × Took p f bytes p'
  unfolding decode_loop
  frame_step fill p f bytes v e k =
      let long : ltb (readable_length p.stream) 4 ≡ false =
        ground (arith, readable_length_lem p.stream v.valid, ap length e, length-append f bytes) in
      let read : load p.stream.array p.stream.read 4 ≡ some (take 4 f) =
        load-contents p.stream 4 v.valid (omega (arith, ap length e, length-append f bytes))
        ∙ ap some (ap (take 4) e ∙ take-append_le 4 f bytes k.headed) in
      let (p', runs, took) = frame_round fill p f bytes v e k.fits in
      (
        p',
        λ fuel. rw (long, decode_loop, read, k.announces) (runs (decode_loop Q fuel fill true)),
        took,
      )

  -- Fewer bytes than a length word has, or than it announces, end the loop.
  pub waits_step :
      (fill fuel : ℕ) (p : Parsing Q)
      → IsParsing p
      → (length (contents p.stream) < 4)
        ⊎ ((4 ≤ length (contents p.stream))
            × (length (contents p.stream) < announced (contents p.stream)))
      → decode_loop Q (suc fuel) fill true p ≡ returns parse_ok p
  unfolding decode_loop round
  waits_step fill fuel p v (inl short) =
      let stop : ltb (readable_length p.stream) 4 ≡ true =
        ground (arith, readable_length_lem p.stream v.valid) in
      rw (stop, decode_loop)
  waits_step fill fuel p v (inr (headed, waits)) =
      let long : ltb (readable_length p.stream) 4 ≡ false =
        ground (arith, readable_length_lem p.stream v.valid) in
      let more : ltb (readable_length p.stream) (announced (contents p.stream)) ≡ true =
        ground (arith, readable_length_lem p.stream v.valid) in
      rw (long, decode_loop, load-contents p.stream 4 v.valid headed, more, round)

  -- An unfinished packet ends the loop.
  pub partial_step :
      (fill fuel : ℕ) (p : Parsing Q)
      → IsParsing p
      → IsPartial (contents p.stream)
      → decode_loop Q (suc fuel) fill true p ≡ returns parse_ok p
  partial_step fill fuel p v (inl short) = waits_step fill fuel p v (inl short)
  partial_step fill fuel p v (inr (headed, waits, fits)) =
      waits_step fill fuel p v (inr (headed, waits))
