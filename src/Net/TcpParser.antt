-- ===== src/Net/TcpParser.antt =====
-- engine/net/tcp_parser.h and tcp_parser.cpp: packets are cut out of the bytes that a session
-- receives. A number in memory is read as on a little-endian machine; the header is 8 bytes, its
-- length and its message number.
pub mod Frames
pub mod Loop
pub mod Stuck
pub mod Reassembly
pub mod Cuts
mod Tests
use cxxprogram.Prelude.{
  Bool, List, Option, [], false, if◌then◌else◌, ltb, none, some, suc, true, zero, ℕ, ◌*◌, ◌++◌, ◌+◌,
  ◌>>=◌, ◌∷◌,
}
use cxxprogram.Net.Queue.{ConcurrentQueue}
use cxxprogram.Net.BufferStream.{
  BufferStream, load, append, offset_read, retrieve, readable_length, init,
}
use cxxprogram.Net.BufferPool.{
  DataBuffer, Manager, alloc, give_back, to_int, set_header_length, copy_from,
}

-- `parser_code`.
pub data ParserCode : Type 0 where
  parse_ok parse_wait parse_close parse_error : ParserCode

-- `*reinterpret_cast<uint32_t*>(p)`, of the four bytes at `p`.
abbrev pub word : List ℕ → ℕ
word [] = 0
word (b ∷ bs) = b + 256 * word bs

abbrev pub header_size : ℕ
header_size = 8

-- `buffer_stream_ = { 2048 }`.
abbrev pub initial_size : ℕ
initial_size = 2048

module _ (Q : ConcurrentQueue DataBuffer) where
  -- The stream of the parser, the shared pools, and the buffers passed to `on_message` so far.
  pub record Parsing : Type 0 where
    pub stream : BufferStream
    pub pools : Manager Q
    pub delivered : List DataBuffer

  -- `faults`: an access outside of allocated memory. `runs_on`: the fuel is used up.
  pub data Outcome : Type 0 where
    returns : ParserCode → Parsing → Outcome
    faults : Outcome
    runs_on : Outcome

  unfoldable pub start : ℕ → Manager Q → Parsing
  unfolding init
  start fill m = record { stream = init fill initial_size; pools = m; delivered = [] }

  -- The end of a round: the packet is copied, its bytes leave the stream, and the handler, if there
  -- is one, gets it; else the buffer goes back to its pool.
  unfoldable pub take_packet : Bool → Parsing → DataBuffer → Manager Q → ℕ → Option Parsing
  take_packet handled p buffer pools total_len = do
    bytes ← load p.stream.array p.stream.read total_len
    let copied = (copy_from (set_header_length buffer header_size) bytes).1
    stream ← retrieve (offset_read p.stream total_len)
    some (record {
      stream = stream;
      pools = if handled then pools else give_back Q copied.alloc_size copied pools;
      delivered = if handled then p.delivered ++ copied ∷ [] else p.delivered;
    })

  -- One round of the `while` loop that finds a length word; `k` is the rest of the loop.
  unfoldable pub round : ℕ → Bool → Parsing → ℕ → (Parsing → Outcome) → Outcome
  round fill handled p total_len k =
      if ltb (readable_length p.stream) total_len
      then returns parse_ok p
      else elim (alloc Q fill p.pools (to_int total_len)) [
        | none ↦ returns parse_error p
        | some (buffer, pools) ↦ elim (take_packet handled p buffer pools total_len) [
          | none ↦ faults
          | some p' ↦ k p'
        ]
      ]

  unfoldable pub decode_loop : ℕ → ℕ → Bool → Parsing → Outcome
  decode_loop zero fill handled p = runs_on
  decode_loop (suc fuel) fill handled p = elim (ltb (readable_length p.stream) 4) [
    | true ↦ returns parse_ok p
    | false ↦ elim (load p.stream.array p.stream.read 4) [
      | none ↦ faults
      | some header ↦ round fill handled p (word header) (decode_loop fuel fill handled)
    ]
  ]

  unfoldable pub recv_and_decode : ℕ → ℕ → Bool → Parsing → List ℕ → Outcome
  recv_and_decode fuel fill handled p bytes = elim (append fill p.stream bytes) [
    | none ↦ faults
    | some s ↦ decode_loop fuel fill handled (record p { stream = s })
  ]
