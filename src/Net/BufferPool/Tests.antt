-- ===== src/Net/BufferPool/Tests.antt =====
-- The pools at work: a buffer is handed out, gets contents, is given back and is handed out again.
use cxxprogram.Prelude.{[], none, refl, some, ℕ, ◌*◌, ◌<◌, ◌≡◌, ◌≤◌, ◌⊎◌}
use cxxprogram.Prelude.Int.{pos}
use cxxprogram.Net.Queue.{ConcurrentQueue, list_queue}
use cxxprogram.Net.BufferPool.{DataBuffer, Manager, new, alloc, set_total_length, size_class}
use cxxprogram.Net.BufferPool.Alloc.{IsClean}
use cxxprogram.Net.BufferPool.Histories.{
  Store, Reach, Reach-alloc, allocs, begun, changes, returns, next,
}

abbrev Q : ConcurrentQueue DataBuffer
Q = list_queue DataBuffer

-- The buffer, and with 9 bytes of contents.
abbrev buffer : DataBuffer
buffer = new 0 128

abbrev filled : DataBuffer
filled = set_total_length buffer 9

abbrev given_back : (s : Store Q 0) × Reach Q 0 s
unfolding alloc size_class new set_total_length
given_back = (
  _,
  next
      (next (next begun (allocs (pos 100) buffer _ refl))
        (changes [] [] buffer filled refl refl refl))
      (returns [] [] filled refl),
)

Reach-alloc_example :
    ((100 < 65536)
      × ((c : ℕ) × (b : DataBuffer) × (m : Manager Q) × (alloc Q 0 given_back.0.pools (pos 100)
            ≡ some (b, m))
          × (100 < c)
          × ((c ≡ 64) ⊎ (c ≤ 2 * 100))
          × (c ≤ 65536)
          × IsClean c b))
    ⊎ ((65536 ≤ 100) × (alloc Q 0 given_back.0.pools (pos 100) ≡ none))
Reach-alloc_example = Reach-alloc Q 0 100 given_back.1
