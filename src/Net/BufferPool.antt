-- ===== src/Net/BufferPool.antt =====
-- engine/net/buffer_pool.h: the buffers that carry one packet each, the pools that recycle them,
-- and the manager that picks a pool by size. `assert` is off, as in a release build. Buffers are
-- values: the code never shares one between two owners that write to it.
pub mod Alloc
pub mod Buffer
pub mod Histories
mod Tests
use mathlib.Core.Option
use cxxprogram.Prelude.{
  List, Option, [], if◌then◌else◌, length, ltb, none, replicate, some, splice, suc, take, zero, ℕ,
  ◌%◌, ◌+◌, ◌-◌, ◌==◌, ◌^◌,
}
use cxxprogram.Prelude.Int.{ℤ, pos, negsuc}
use cxxprogram.Net.Queue.{ConcurrentQueue}
use cxxprogram.Net.BufferStream.{load}

pub record DataBuffer : Type 0 where
  pub alloc_size : ℕ
  pub total_length : ℕ
  pub header_length : ℕ
  pub buffer : List ℕ

-- `new data_buffer<size>()`; its bytes are not initialised.
unfoldable pub new : ℕ → ℕ → DataBuffer
new fill size = record {
  alloc_size = size;
  total_length = 0;
  header_length = 0;
  buffer = replicate size fill;
}

unfoldable pub set_total_length : DataBuffer → ℕ → DataBuffer
set_total_length b n = record b { total_length = n }

unfoldable pub set_header_length : DataBuffer → ℕ → DataBuffer
set_header_length b n = record b { header_length = n }

-- `size_t` subtraction.
unfoldable pub body_length : DataBuffer → ℕ
body_length b = (b.total_length + 2 ^ 64 - b.header_length) % 2 ^ 64

unfoldable pub release : DataBuffer → DataBuffer
release b = record b { total_length = 0; header_length = 0 }

-- The number returned, beside the buffer.
unfoldable pub copy_from : DataBuffer → List ℕ → ℕ × DataBuffer
copy_from b src =
    if ltb b.alloc_size (length src)
    then (0, b)
    else (length src, record b { buffer = splice b.buffer 0 src; total_length = length src })

-- `copy_from(basic_data_buffer*)`.
unfoldable pub copy_from_buffer : DataBuffer → DataBuffer → ℕ × DataBuffer
unfolding copy_from
copy_from_buffer b src = copy_from b (take src.total_length src.buffer)

-- The number returned, and the bytes written to the destination; `none` is a read past the buffer.
unfoldable pub copy_to : DataBuffer → ℕ → Option (ℕ × List ℕ)
copy_to b dest_len =
    if ltb dest_len b.total_length
    then some (0, [])
    else Option.map (λ bytes. (dest_len, bytes)) (load b.buffer 0 dest_len)

-- `buffer_pool_manager::alloc`: the pool that serves a size.
unfoldable pub size_class : ℤ → Option ℕ
size_class (negsuc n) = some 64
size_class (pos n) =
    if ltb n 64
    then some 64
    else if ltb n 128
    then some 128
    else if ltb n 256
    then some 256
    else if ltb n 512
    then some 512
    else if ltb n 1024
    then some 1024
    else if ltb n 2048
    then some 2048
    else if ltb n 4096
    then some 4096
    else if ltb n 8192
    then some 8192
    else if ltb n 16384
    then some 16384
    else if ltb n 32768
    then some 32768
    else if ltb n 65536
    then some 65536
    else none

-- The conversion of a `uint32_t` or a `size_t` to the parameter `int size`.
abbrev pub to_int : ℕ → ℤ
to_int n = let w = n % 2 ^ 32 in if ltb w (2 ^ 31) then pos w else negsuc (2 ^ 32 - w - 1)

module _ (Q : ConcurrentQueue DataBuffer) where
  -- The pool of size `size` is the queue of its free buffers.
  abbrev pub Pool : Type 0
  Pool = Q.Carrier

  unfoldable pub pool_alloc : ℕ → ℕ → Pool → DataBuffer × Pool
  pool_alloc fill size q = elim (Q.try_dequeue q) [
    | none ↦ (new fill size, q)
    | some (b, q') ↦ (b, q')
  ]

  unfoldable pub return_to_pool : DataBuffer → Pool → Pool
  return_to_pool b q = Q.enqueue (release b) q

  -- `buffer_pool::release`, on fuel: `none` if it runs out.
  unfoldable pub pool_release : ℕ → Pool → Option Pool
  pool_release zero q = none
  pool_release (suc fuel) q = elim (Q.try_dequeue q) [
    | none ↦ some q
    | some (b, q') ↦ pool_release fuel q'
  ]

  -- The eleven pools, by their sizes.
  abbrev pub Manager : Type 0
  Manager = ℕ → Pool

  abbrev pub set_pool : Manager → ℕ → Pool → Manager
  set_pool m c q d = if c == d then q else m d

  unfoldable pub alloc : ℕ → Manager → ℤ → Option (DataBuffer × Manager)
  unfolding pool_alloc
  alloc fill m size = elim (size_class size) [
    | none ↦ none
    | some c ↦ let (b, q) = pool_alloc fill c (m c) in some (b, set_pool m c q)
  ]

  unfoldable pub give_back : ℕ → DataBuffer → Manager → Manager
  unfolding return_to_pool
  give_back c b m = set_pool m c (return_to_pool b (m c))
