-- ===== src/Net/BufferStream.antt =====
-- engine/net/buffer_stream.h and buffer_stream.cpp: the byte stream that a session parses from.
-- `none` is an access outside the array that `malloc` or `realloc` gave. The bytes of that memory
-- that nothing has written yet have the value `fill`, an argument: no theorem depends on it.
pub mod Append
pub mod Retrieve
mod Tests
use mathlib.Core.Option
use cxxprogram.Prelude.{
  ℕ, ◌+◌, ◌-◌, ◌%◌, ◌^◌, Bool, ◌&&◌, Option, some, none, List, ◌++◌, ltb, leb, ◌==◌, if◌then◌else◌,
  ◌>>=◌, ◌≡◌, ◌≤◌, ◌<◌, length, take, drop, replicate, splice,
}

pub record BufferStream : Type 0 where
  pub array : List ℕ
  pub write : ℕ
  pub read : ℕ
  pub size : ℕ

-- `uint32_t` addition and subtraction.
abbrev pub add32 : ℕ → ℕ → ℕ
add32 a b = (a + b) % 2 ^ 32

abbrev pub sub32 : ℕ → ℕ → ℕ
sub32 a b = (a + 2 ^ 32 - b) % 2 ^ 32

-- `memcpy` out of and into an array of `length a` bytes.
abbrev pub load : List ℕ → ℕ → ℕ → Option (List ℕ)
load a i n = if leb (i + n) (length a) then some (take n (drop i a)) else none

abbrev pub store : List ℕ → ℕ → List ℕ → Option (List ℕ)
store a i src = if leb (i + length src) (length a) then some (splice a i src) else none

abbrev pub realloc : ℕ → List ℕ → ℕ → List ℕ
realloc fill a n = take n a ++ replicate (n - length a) fill

unfoldable pub init : ℕ → ℕ → BufferStream
init fill init_size = record {
  array = replicate init_size fill;
  write = 0;
  read = 0;
  size = init_size;
}

unfoldable pub capacity : BufferStream → ℕ
capacity s = s.size

unfoldable pub writeable_length : BufferStream → ℕ
writeable_length s = sub32 s.size s.write

unfoldable pub readable_length : BufferStream → ℕ
readable_length s = sub32 s.write s.read

-- `int need = size - writeable_length(); need > 0`: an unsigned difference, read as an `int`.
unfoldable pub needs_room : BufferStream → ℕ → Bool
unfolding writeable_length
needs_room s n = let need = sub32 n (writeable_length s) in ltb 0 need && ltb need (2 ^ 31)

-- The array is doubled once, whatever is needed.
unfoldable pub grow : ℕ → BufferStream → BufferStream
grow fill s =
    let doubled = add32 s.size s.size in
    record s { array = realloc fill s.array doubled; size = doubled }

unfoldable pub reserve : ℕ → BufferStream → ℕ → BufferStream
unfolding needs_room grow
reserve fill s n = if needs_room s n then grow fill s else s

-- `size` is the length of `bytes`.
unfoldable pub append : ℕ → BufferStream → List ℕ → Option BufferStream
unfolding reserve
append fill s bytes =
    let r = reserve fill s (length bytes) in
    Option.map (λ a. record r { array = a; write = add32 r.write (length bytes) })
      (store r.array r.write bytes)

unfoldable pub offset_write : BufferStream → ℕ → BufferStream
offset_write s n = record s { write = add32 s.write n }

unfoldable pub offset_read : BufferStream → ℕ → BufferStream
offset_read s n = record s { read = add32 s.read n }

unfoldable pub retrieve : BufferStream → Option BufferStream
unfolding readable_length
retrieve s =
    let len = readable_length s in
    let moved = load s.array s.read len >>= store s.array 0 in
    if s.read == 0
    then some s
    else Option.map (λ a. record s { array = a; read = 0; write = len }) moved

-- The abstract view: the bytes between the two positions.
abbrev pub contents : BufferStream → List ℕ
contents s = take (s.write - s.read) (drop s.read s.array)

-- The sizes stay in the range of `int`, in which `need` is computed.
pub record IsValid (s : BufferStream) : Type 0 where
  pub backed : length s.array ≡ s.size
  pub read_le : s.read ≤ s.write
  pub write_le : s.write ≤ s.size
  pub small : s.size < 2 ^ 31
