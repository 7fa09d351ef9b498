-- ===== src/Net/BufferStream/Append.antt =====
-- `buffer_stream::append` (engine/net/buffer_stream.cpp), within its room and beyond.
use cxxprogram.Prelude.{
  Bool-cases, List, ap, arith, if◌then◌else◌, inl, inr, length, length-append, length-replicate,
  length-splice, ltb, ltb→lt, none, refl, replicate, some, splice, take-drop-append,
  take-drop-splice, take_all, ℕ, ◌%◌, ◌*◌, ◌++◌, ◌+◌, ◌-◌, ◌<◌, ◌^◌, ◌∙◌, ◌≡◌, ◌≤◌, ◌⊎◌,
}
use cxxprogram.Net.BufferStream.{BufferStream, IsValid, contents, grow, needs_room, append}

-- The room that `append` can make: what is free, and one doubling.
abbrev pub room : BufferStream → ℕ
room s = s.size - s.write + s.size

-- `need` does not wrap.
needs_room_lem :
    (s : BufferStream) (n : ℕ) → IsValid s → n < 2 ^ 31 → needs_room s n ≡ ltb (s.size - s.write) n
unfolding needs_room
needs_room_lem s n v h = ground arith

-- The array after one doubling.
abbrev grown : ℕ → BufferStream → BufferStream
grown fill s = record s { array = s.array ++ replicate s.size fill; size = s.size + s.size }

grow_lem :
    (fill : ℕ) (s : BufferStream) → IsValid s → 2 * s.size < 2 ^ 31 → grow fill s ≡ grown fill s
unfolding grow
grow_lem fill s v k =
    rw (twice, take_all (s.size + s.size) s.array (omega arith))
      (ap (λ n. record s { array = s.array ++ replicate n fill; size = s.size + s.size })
        (omega arith))
  where
    twice : (s.size + s.size) % 2 ^ 32 ≡ s.size + s.size
    twice = omega arith

grown-IsValid :
    (fill : ℕ) (s : BufferStream) → IsValid s → 2 * s.size < 2 ^ 31 → IsValid (grown fill s)
grown-IsValid fill s v k = record {
  backed =
      omega (arith, length-append s.array (replicate s.size fill), length-replicate s.size fill);
  read_le = v.read_le;
  write_le = omega arith;
  small = omega arith;
}

-- Where the bytes fit in the array as it is, the write lands behind what was readable.
abbrev written : BufferStream → List ℕ → BufferStream
written s bytes = record s { array = splice s.array s.write bytes; write = s.write + length bytes }

written-IsValid :
    (s : BufferStream) (bytes : List ℕ)
    → IsValid s
    → s.write + length bytes ≤ s.size
    → IsValid (written s bytes) × (contents (written s bytes) ≡ contents s ++ bytes)
written-IsValid s bytes v h = (
  record {
    backed = omega (arith, length-splice s.array s.write bytes (omega arith));
    read_le = omega arith;
    write_le = h;
    small = v.small;
  },
  take-drop-splice s.array s.read s.write bytes v.read_le (omega arith),
)

contents-grown : (fill : ℕ) (s : BufferStream) → IsValid s → contents (grown fill s) ≡ contents s
contents-grown fill s v = take-drop-append s.array _ s.read (s.write - s.read) (omega arith)

-- The whole of `append` where the room suffices: the array as it is, or once doubled.
append_fits :
    (fill : ℕ) (s : BufferStream) (bytes : List ℕ)
    → IsValid s
    → 2 * s.size < 2 ^ 31
    → length bytes ≤ room s
    → append fill s bytes
      ≡ some (written (if ltb (s.size - s.write) (length bytes) then grown fill s else s) bytes)
unfolding append
append_fits fill s bytes v k h =
    rw (needs_room_lem s (length bytes) v (omega arith), grow_lem fill s v k)
      (ground (arith, length-append s.array (replicate s.size fill), length-replicate s.size fill))

-- What one call of `append` achieves.
pub record Appended (s : BufferStream) (bytes : List ℕ) (t : BufferStream) : Type 0 where
  pub valid : IsValid t
  pub appended : contents t ≡ contents s ++ bytes
  pub end : t.write ≡ s.write + length bytes
  pub start : t.read ≡ s.read
  pub sizes : (t.size ≡ s.size) ⊎ ((t.size ≡ 2 * s.size) × (s.size - s.write < length bytes))

-- On a valid stream whose doubled size is an `int`, `append` of at most what is free and one
-- capacity more stays inside the memory, and puts the bytes behind the readable ones; the array is
-- kept, or doubled where it is too small.
pub append_lem :
    (fill : ℕ) (s : BufferStream) (bytes : List ℕ)
    → IsValid s
    → 2 * s.size < 2 ^ 31
    → length bytes ≤ room s
    → (t : BufferStream) × (append fill s bytes ≡ some t) × Appended s bytes t
append_lem fill s bytes v k h = elim (Bool-cases (ltb (s.size - s.write) (length bytes))) [
  | inl tight ↦
      let g = grown fill s in
      let w = written-IsValid g bytes (grown-IsValid fill s v k) (omega arith) in
      (
        written g bytes,
        append_fits fill s bytes v k h ∙ rw tight,
        record {
          valid = w.0;
          appended = w.1 ∙ ap (λ c. c ++ bytes) (contents-grown fill s v);
          end = refl;
          start = refl;
          sizes = inr (omega arith, ltb→lt _ _ tight);
        },
      )
  | inr free ↦
      let w = written-IsValid s bytes v (ground arith) in
      (
        written s bytes,
        append_fits fill s bytes v k h ∙ rw free,
        record { valid = w.0; appended = w.1; end = refl; start = refl; sizes = inl refl },
      )
]

-- On such a stream `append` of more than what is free and one capacity more writes past the end of
-- the memory, since it doubles once only.
pub append-overrun :
    (fill : ℕ) (s : BufferStream) (bytes : List ℕ)
    → IsValid s
    → 2 * s.size < 2 ^ 31
    → length bytes < 2 ^ 31
    → room s < length bytes
    → append fill s bytes ≡ none
unfolding append
append-overrun fill s bytes v k small h =
    rw (needs_room_lem s (length bytes) v small, grow_lem fill s v k)
      (ground (arith, length-append s.array (replicate s.size fill), length-replicate s.size fill))

-- On a valid stream whose doubled size is an `int`: `append` of at most what is free and one capacity
-- more stays inside the memory and puts the bytes behind the readable ones, in the array as it is, or
-- in one of twice the size where it is too small; and `append` of more bytes, fewer than 2^31, writes
-- past the end of the memory, since it doubles once only.
pub append_cases :
    (fill : ℕ) (s : BufferStream) (bytes : List ℕ)
    → IsValid s
    → 2 * s.size < 2 ^ 31
    → length bytes < 2 ^ 31
    → ((length bytes ≤ room s)
        × ((t : BufferStream) × (append fill s bytes ≡ some t) × Appended s bytes t))
      ⊎ ((room s < length bytes) × (append fill s bytes ≡ none))
append_cases fill s bytes v k small = elim (Bool-cases (ltb (room s) (length bytes))) [
  | inl e ↦
      let h = ltb→lt (room s) (length bytes) e in inr (h, append-overrun fill s bytes v k small h)
  | inr e ↦ let h : length bytes ≤ room s = ground arith in inl (h, append_lem fill s bytes v k h)
]
