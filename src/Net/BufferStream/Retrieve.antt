-- ===== src/Net/BufferStream/Retrieve.antt =====
-- `buffer_stream::offset_read` and `retrieve` (engine/net/buffer_stream.cpp), on the readable bytes.
use cxxprogram.Prelude.{
  Bool-cases, ap, arith, drop, drop-drop, drop-take, false, inl, inr, length, length-drop,
  length-splice, length-take, refl, some, splice, sym, take, take-append_eq, take-take_le, ℕ, ◌%◌,
  ◌+◌, ◌-◌, ◌==◌, ◌^◌, ◌∙◌, ◌≡◌, ◌≤◌,
}
use cxxprogram.Net.BufferStream.{
  BufferStream, IsValid, contents, offset_read, retrieve, readable_length, load,
}

pub readable_length_lem : (s : BufferStream) → IsValid s → readable_length s ≡ length (contents s)
unfolding readable_length
readable_length_lem s v =
    omega (arith, length-take (s.write - s.read) (drop s.read s.array), length-drop s.read s.array)

pub length-contents : (s : BufferStream) → IsValid s → length (contents s) ≡ s.write - s.read
length-contents s v =
    omega (arith, length-take (s.write - s.read) (drop s.read s.array), length-drop s.read s.array)

-- The state after the bytes have moved to the front.
abbrev moved : BufferStream → BufferStream
moved s = record s { array = splice s.array 0 (contents s); read = 0; write = s.write - s.read }

retrieve-eq-moved :
    (s : BufferStream) → IsValid s → (s.read == 0) ≡ false → retrieve s ≡ some (moved s)
unfolding retrieve readable_length
retrieve-eq-moved s v h = rw len (ground (arith, length-contents s v))
  where
    len : (s.write + 2 ^ 32 - s.read) % 2 ^ 32 ≡ s.write - s.read
    len = omega arith

-- `retrieve` never leaves the array. It keeps the readable bytes and the capacity, and leaves all
-- the room behind them.
pub retrieve_lem :
    (s : BufferStream)
    → IsValid s
    → (t : BufferStream) × (retrieve s ≡ some t)
      × IsValid t
      × (contents t ≡ contents s)
      × (t.read ≡ 0)
      × (t.size ≡ s.size)
unfolding retrieve
retrieve_lem s v = elim (Bool-cases (s.read == 0)) [
  | inl e ↦ (s, rw e, v, refl, ground arith, refl)
  | inr e ↦ (
    moved s,
    retrieve-eq-moved s v e,
    record {
      backed = omega (arith, length-splice s.array 0 (contents s), length-contents s v);
      read_le = omega arith;
      write_le = omega arith;
      small = v.small;
    },
    take-append_eq (s.write - s.read - 0) (contents s) _ (omega (arith, length-contents s v)),
    refl,
    refl,
  )
]

-- `offset_read` of at most the readable bytes drops that many.
pub offset_read_lem :
    (s : BufferStream) (n : ℕ)
    → IsValid s
    → n ≤ length (contents s)
    → IsValid (offset_read s n) × (contents (offset_read s n) ≡ drop n (contents s))
unfolding offset_read
offset_read_lem s n v h =
    let e : (s.read + n) % 2 ^ 32 ≡ s.read + n = omega (arith, length-contents s v) in
    rw e (
      record {
        backed = v.backed;
        read_le = omega (arith, length-contents s v);
        write_le = v.write_le;
        small = v.small;
      },
      ap (take (s.write - (s.read + n))) (sym (drop-drop n s.read s.array))
          ∙ ap (λ k. take k (drop n (drop s.read s.array)))
              (let d : s.write - (s.read + n) ≡ s.write - s.read - n = omega arith in d)
          ∙ sym (drop-take n (s.write - s.read) (drop s.read s.array)),
    )

-- What is read at the read position is readable.
pub load-contents :
    (s : BufferStream) (n : ℕ)
    → IsValid s
    → n ≤ length (contents s)
    → load s.array s.read n ≡ some (take n (contents s))
load-contents s n v h =
    rw
      (take-take_le n (s.write - s.read) (drop s.read s.array) (omega (arith, length-contents s v)))
      (ground (arith, length-contents s v))

-- `offset_read` of at most the readable bytes and then `retrieve`, as the parser calls them: those
-- bytes are dropped, the others are kept and stand at the front, and the capacity stays.
pub retrieve-offset_read :
    (s : BufferStream) (n : ℕ)
    → IsValid s
    → n ≤ length (contents s)
    → (t : BufferStream) × (retrieve (offset_read s n) ≡ some t)
      × IsValid t
      × (contents t ≡ drop n (contents s))
      × (t.read ≡ 0)
      × (t.size ≡ s.size)
unfolding offset_read
retrieve-offset_read s n v h =
    let (v', c) = offset_read_lem s n v h in
    let (t, e, vt, ct, r, z) = retrieve_lem (offset_read s n) v' in (t, e, vt, ct ∙ c, r, z)
