-- ===== src/Net/EndToEnd/Sessions/Tests.antt =====
-- Two sessions whose chunks come in turn.
use mathlib.Core.List.{Perm, flatten, not-mem-nil}
use cxxprogram.Prelude.{
  Bool-cases, List, [], arith, if◌then◌else◌, inl, inr, length, refl, some, suc, true, ℕ, ◌++◌,
  ◌==◌, ◌∷◌, ◌≡◌,
}
use cxxprogram.Net.Queue.{ConcurrentQueue, list_queue, list_queue-KeepsOrder, sift}
use cxxprogram.Net.BufferStream.{contents}
use cxxprogram.Net.BufferPool.{DataBuffer, Manager}
use cxxprogram.Net.BufferPool.Alloc.{IsPooled}
use cxxprogram.Net.TcpParser.Frames.{IsPartial}
use cxxprogram.Net.TcpParser.Reassembly.{All}
use cxxprogram.Net.Server.{Packet, Server, update}
use cxxprogram.Net.EndToEnd.Stream.{Message, frames}
use cxxprogram.Net.EndToEnd.Dispatch.{CarryAll, from_session, IsMessage}
use cxxprogram.Net.EndToEnd.Sessions.{Arrival, Machine, begin, bytes_of, handle, receive_all}
use cxxprogram.Net.EndToEnd.Sessions.Sorting.{of_session}
use cxxprogram.Net.EndToEnd.Sessions.Dispatched.{receive_all-dispatched}

abbrev Q : ConcurrentQueue DataBuffer
Q = list_queue DataBuffer

abbrev P : ConcurrentQueue Packet
P = list_queue Packet

abbrev no_pools : Manager Q
no_pools c = []

no_pools-IsPooled : IsPooled Q no_pools
no_pools-IsPooled c b m = absurd (not-mem-nil m)

abbrev server : Server P
server = record { sessions = []; msg_queue = [] }

-- The packet of session 6 comes between the two parts of that of session 5, which has begun another.
abbrev arrivals : List Arrival
arrivals =
    (5, 9 ∷ 0 ∷ 0 ∷ 0 ∷ 7 ∷ [])
    ∷ (6, 9 ∷ 0 ∷ 0 ∷ 0 ∷ 9 ∷ 0 ∷ 0 ∷ 0 ∷ 66 ∷ [])
    ∷ (5, 0 ∷ 0 ∷ 0 ∷ 65 ∷ 9 ∷ 0 ∷ [])
    ∷ []

abbrev messages : ℕ → List Message
messages i = if 5 == i then (7, 65 ∷ []) ∷ [] else if 6 == i then (9, 66 ∷ []) ∷ [] else []

abbrev rest : ℕ → List ℕ
rest i = if 5 == i then 9 ∷ 0 ∷ [] else []

messages-IsMessage : (i : ℕ) → All IsMessage (messages i)
messages-IsMessage i = elim (Bool-cases (5 == i)) [
  | inl e ↦ rw e ((omega arith, omega arith), tt)
  | inr e ↦ elim (Bool-cases (6 == i)) [
    | inl f ↦ rw (e, f) ((omega arith, omega arith), tt)
    | inr f ↦ rw (e, f) tt
  ]
]

rest-IsPartial : (i : ℕ) → IsPartial (rest i)
rest-IsPartial i = elim (Bool-cases (5 == i)) [
  | inl e ↦ rw e (inl (omega arith))
  | inr e ↦ rw e (inl (omega arith))
]

arrivals-bytes : (i : ℕ) → bytes_of i arrivals ≡ flatten (frames (messages i)) ++ rest i
unfolding flatten
arrivals-bytes i = elim (Bool-cases (5 == i)) [
  | inl e ↦ elim (Bool-cases (6 == i)) [ inl f ↦ absurd (ground arith) | inr f ↦ rw (e, f) refl ]
  | inr e ↦ elim (Bool-cases (6 == i)) [ inl f ↦ rw (e, f) refl | inr f ↦ rw (e, f) refl ]
]

receive_all-dispatched_example :
    (c : Machine Q P) × (arrived ps q : List Packet) × (receive_all Q P 30 170
        (λ i. 0)
        (begin Q P 170 no_pools server)
        arrivals
      ≡ some c)
    × ((i : ℕ) → CarryAll (handle (λ k. 0) i) (messages i) (of_session i arrived))
    × ((i : ℕ) → contents (c.streams i) ≡ rest i)
    × (update P (suc (length c.server.msg_queue)) true c.server.msg_queue ≡ some (ps, q))
    × Perm (arrived ++ []) ps
    × (q ≡ [])
    × ((i : ℕ) → sift (from_session i) ps ≡ of_session i arrived)
unfolding flatten
receive_all-dispatched_example =
    receive_all-dispatched Q P 30 170 (λ i. 0) no_pools server arrivals messages rest
      (list_queue-KeepsOrder from_session) no_pools-IsPooled messages-IsMessage rest-IsPartial
      arrivals-bytes (omega arith, (omega arith, (omega arith, tt))) (omega arith)
