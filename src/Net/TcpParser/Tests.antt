-- ===== src/Net/TcpParser/Tests.antt =====
-- The theorems on the parser, at small inputs.
use mathlib.Core.List.{not-mem-nil}
use cxxprogram.Prelude.{List, [], arith, inl, refl, true, ℕ, ◌∷◌, ◌≡◌}
use cxxprogram.Net.Queue.{ConcurrentQueue, list_queue}
use cxxprogram.Net.TcpParser.Stuck.{decode_loop-zero_length}
use cxxprogram.Net.BufferPool.{DataBuffer, Manager}
use cxxprogram.Net.BufferPool.Alloc.{IsPooled}
use cxxprogram.Net.TcpParser.{
  Parsing, start, returns, runs_on, parse_ok, recv_and_decode, decode_loop,
}
use cxxprogram.Net.TcpParser.Loop.{IsParsing}
use cxxprogram.Net.TcpParser.Cuts.{End, Cut, ended, decode_loop-Cut}
use cxxprogram.Net.TcpParser.Frames.{Framed, partial, packet}
use cxxprogram.Net.TcpParser.Reassembly.{recv_and_decode_lem, start-IsReady, IsReady, Drained}

abbrev Q : ConcurrentQueue DataBuffer
Q = list_queue DataBuffer

abbrev no_pools : Manager Q
no_pools c = []

no_pools-IsPooled : IsPooled Q no_pools
no_pools-IsPooled c b m = absurd (not-mem-nil m)

-- Two packets with numbers 7 and 9 and one byte each, cut in the middle of the second length word.
abbrev two_packets : List ℕ
two_packets = 9 ∷ 0 ∷ 0 ∷ 0 ∷ 7 ∷ 0 ∷ 0 ∷ 0 ∷ 65 ∷ 9 ∷ 0 ∷ 0 ∷ 0 ∷ 9 ∷ 0 ∷ 0 ∷ 0 ∷ 66 ∷ []

abbrev first_packet : List ℕ
first_packet = 9 ∷ 0 ∷ 0 ∷ 0 ∷ 7 ∷ 0 ∷ 0 ∷ 0 ∷ 65 ∷ []

abbrev second_packet : List ℕ
second_packet = 9 ∷ 0 ∷ 0 ∷ 0 ∷ 9 ∷ 0 ∷ 0 ∷ 0 ∷ 66 ∷ []

abbrev chunks : List (List ℕ)
chunks = (9 ∷ 0 ∷ 0 ∷ 0 ∷ 7 ∷ 0 ∷ 0 ∷ 0 ∷ 65 ∷ 9 ∷ 0 ∷ []) ∷ (0 ∷ 0 ∷ 9 ∷ 0 ∷ 0 ∷ 0 ∷ 66 ∷ []) ∷ []

two_packets-Framed : Framed two_packets (first_packet ∷ second_packet ∷ []) []
two_packets-Framed =
    packet {f = first_packet}
      (record { headed = omega arith; announces = refl; fits = omega arith })
      (packet {f = second_packet} {bytes = []}
        (record { headed = omega arith; announces = refl; fits = omega arith })
        (partial (inl (omega arith))))

recv_and_decode_lem_example :
    (p' : Parsing Q) × (recv_and_decode Q 30 170 true (start Q 170 no_pools) two_packets
      ≡ returns parse_ok p')
    × IsReady Q p'
    × Drained Q (start Q 170 no_pools) (first_packet ∷ second_packet ∷ []) [] p'
unfolding start
recv_and_decode_lem_example =
    recv_and_decode_lem Q 30 170 (start Q 170 no_pools) two_packets
      (start-IsReady Q 170 no_pools no_pools-IsPooled) (omega arith) two_packets-Framed
      (omega arith)

-- Four zeros: a length of 0.
abbrev zero_length : Parsing Q
zero_length = record {
  stream = record { array = 0 ∷ 0 ∷ 0 ∷ 0 ∷ []; write = 4; read = 0; size = 4 };
  pools = no_pools;
  delivered = [];
}

zero_length-IsParsing : IsParsing Q zero_length
zero_length-IsParsing = record {
  valid = record {
    backed = refl;
    read_le = omega arith;
    write_le = omega arith;
    small = omega arith;
  };
  pooled = no_pools-IsPooled;
}

decode_loop_runs : decode_loop Q 1000 170 true zero_length ≡ runs_on
decode_loop_runs =
    decode_loop-zero_length Q 1000 170 zero_length zero_length-IsParsing (omega arith) refl

-- A packet of two bytes, less than its own length word, and then three zeros.
abbrev two_bytes : Parsing Q
two_bytes = record {
  stream = record { array = 2 ∷ 0 ∷ 0 ∷ 0 ∷ 0 ∷ []; write = 5; read = 0; size = 5 };
  pools = no_pools;
  delivered = [];
}

decode_loop-Cut_example :
    (fs : List (List ℕ)) × (r : List ℕ) × (e : End) × (p' : Parsing Q) × Cut
      (2 ∷ 0 ∷ 0 ∷ 0 ∷ 0 ∷ [])
      fs
      r
      e
    × (decode_loop Q 6 170 true two_bytes ≡ ended Q e p')
    × Drained Q two_bytes fs r p'
decode_loop-Cut_example =
    decode_loop-Cut Q 6 170 two_bytes
      (record {
        valid = record {
          backed = refl;
          read_le = omega arith;
          write_le = omega arith;
          small = omega arith;
        };
        pooled = no_pools-IsPooled;
      })
      (omega arith)
