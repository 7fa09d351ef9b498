-- ===== src/Net/BufferPool/Buffer.antt =====
-- `copy_from` and `copy_to` of `data_buffer` (engine/net/buffer_pool.h).
use cxxprogram.Prelude.{
  List, arith, drop, length, length-splice, refl, some, splice, take, take-append_eq, ℕ, ◌<◌, ◌∙◌,
  ◌≡◌, ◌≤◌,
}
use cxxprogram.Net.BufferPool.{DataBuffer, copy_from, copy_to, body_length}

-- The bytes that a buffer carries, and those behind its header.
abbrev pub payload : DataBuffer → List ℕ
payload b = take b.total_length b.buffer

abbrev pub body : DataBuffer → List ℕ
body b = take (body_length b) (drop b.header_length b.buffer)

-- Bytes that fit the buffer become its contents, and the header's length stays.
pub copy_from_lem :
    (b : DataBuffer) (src : List ℕ)
    → length b.buffer ≡ b.alloc_size
    → length src ≤ b.alloc_size
    → (b' : DataBuffer) × (copy_from b src ≡ (length src, b'))
      × (payload b' ≡ src)
      × (b'.total_length ≡ length src)
      × (b'.header_length ≡ b.header_length)
      × (b'.alloc_size ≡ b.alloc_size)
      × (length b'.buffer ≡ b'.alloc_size)
unfolding copy_from
copy_from_lem b src h k = (
  record b { buffer = splice b.buffer 0 src; total_length = length src },
  ground arith,
  take-append_eq (length src) src _ refl,
  refl,
  refl,
  refl,
  length-splice b.buffer 0 src (omega arith) ∙ h,
)

-- Bytes that do not fit are refused, and the buffer keeps what it had.
pub copy_from-refused :
    (b : DataBuffer) (src : List ℕ) → b.alloc_size < length src → copy_from b src ≡ (0, b)
unfolding copy_from
copy_from-refused b src h = ground arith

-- What was copied into a buffer that is large enough is copied out again, to a destination of that
-- length.
pub copy_to-copy_from :
    (b : DataBuffer) (src : List ℕ)
    → length b.buffer ≡ b.alloc_size
    → length src ≤ b.alloc_size
    → copy_to (copy_from b src).1 (length src) ≡ some (length src, src)
unfolding copy_to copy_from
copy_to-copy_from b src h k = ground (
  arith,
  length-splice b.buffer 0 src,
  take-append_eq (length src) src (drop (length src) b.buffer) refl,
)
