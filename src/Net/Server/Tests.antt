-- ===== src/Net/Server/Tests.antt =====
-- The theorems on the server, at small inputs.
use mathlib.Core.List.{not-mem-nil, Perm}
use cxxprogram.Prelude.{List, [], arith, map, none, refl, some, ◌++◌, ◌<◌, ◌∷◌, ◌≡◌, ◌≤◌, ◌⊎◌}
use cxxprogram.Net.Queue.{ConcurrentQueue, list_queue}
use cxxprogram.Net.BufferPool.{DataBuffer, Manager}
use cxxprogram.Net.BufferPool.Alloc.{IsPooled}
use cxxprogram.Net.BufferPool.Buffer.{body as body_bytes}
use cxxprogram.Net.TcpParser.Frames.{IsFrame}
use cxxprogram.Net.Server.{Session, Packet, Server, send, on_message, get_session}
use cxxprogram.Net.Server.History.{Change, opens, closes, notice, change_all, change_all_lem}
use cxxprogram.Net.Server.Framing.{frame, send_cases, on_message-frame}

abbrev Q : ConcurrentQueue DataBuffer
Q = list_queue DataBuffer

abbrev P : ConcurrentQueue Packet
P = list_queue Packet

abbrev no_pools : Manager Q
no_pools c = []

no_pools-IsPooled : IsPooled Q no_pools
no_pools-IsPooled c b m = absurd (not-mem-nil m)

abbrev five : Session
five = record { sid = 5; name = 0 }

abbrev server : Server P
server = record { sessions = []; msg_queue = [] }

-- A packet with number 7 and the byte 65.
abbrev carried : DataBuffer
carried = record {
  alloc_size = 12;
  total_length = 9;
  header_length = 8;
  buffer = 9 ∷ 0 ∷ 0 ∷ 0 ∷ 7 ∷ 0 ∷ 0 ∷ 0 ∷ 65 ∷ 0 ∷ 0 ∷ 0 ∷ [];
}

send_cases_example :
    ((1 < 65528)
      × ((m' : Manager Q) × (send Q 0 no_pools 7 (65 ∷ []) ≡ some (frame 7 (65 ∷ []), m'))
          × IsFrame (frame 7 (65 ∷ []))
          × IsPooled Q m'))
    ⊎ ((65528 ≤ 1) × (send Q 0 no_pools 7 (65 ∷ []) ≡ none))
send_cases_example = send_cases Q 0 no_pools 7 (65 ∷ []) no_pools-IsPooled (omega arith)

on_message_runs :
    (on_message P server five carried
      ≡ some (record {
        sessions = [];
        msg_queue = record { session = five; msgid = 7; buffer = some carried } ∷ [];
      }))
    × (body_bytes carried ≡ 65 ∷ [])
on_message_runs =
    on_message-frame P server five carried 7 (65 ∷ []) refl refl refl (omega arith) (omega arith)

-- Session 5 comes and goes, and another one of that identifier comes; the newest change stands first.
abbrev changes : List Change
changes = opens (record { sid = 5; name = 1 }) ∷ closes five ∷ opens five ∷ []

change_all_lem_example :
    (get_session P (change_all P server changes) 5 ≡ some (record { sid = 5; name = 1 }))
    × Perm (change_all P server changes).msg_queue (map notice changes ++ [])
change_all_lem_example = change_all_lem P server changes 5 refl
