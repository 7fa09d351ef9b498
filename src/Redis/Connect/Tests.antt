-- ===== src/Redis/Connect/Tests.antt =====
-- The theorems on connections, at servers that always answer the same.
use cxxprogram.Prelude.{Option, [], none, refl, some, ℕ, ◌+◌, ◌∷◌, ◌≡◌, ◌⊎◌}
use cxxprogram.Redis.Command.{Command, param_count, argv, argv_len}
use cxxprogram.Redis.Result.{Reply, status, empty, set_result}
use cxxprogram.Redis.Connect.{
  Hiredis, Request, with_argv, Connect, connect, destroy, excute, query, new, request_of,
}
use cxxprogram.Redis.Connect.Faults.{Opened, connect_lem, excute_lem}
use cxxprogram.Redis.Connect.Objects.{
  Calls, begun, called, connects, excutes, queries, destroy-balance,
}

-- The state of a context is its error, which begins as the port.
abbrev server : Option Reply → ℕ → Hiredis
server reply error_after = record {
  Context = ℕ;
  open_context = λ ip port. some port;
  err = λ x. x;
  request = λ x q. (reply, error_after);
}

abbrev ok_reply : Reply
ok_reply = record { type = status; str = some (79 ∷ 75 ∷ []); elements = [] }

abbrev good : Hiredis
good = server (some ok_reply) 0

abbrev broken : Hiredis
broken = server none 3

abbrev connection : (H : Hiredis) → H.Context → Connect H
connection H x = record {
  ip = [];
  port = 0;
  index = 0;
  context = some x;
  contexts_made = 1;
  contexts_freed = 0;
  replies_made = 0;
  replies_freed = 0;
}

abbrev command : Command
command = record { params = (103 ∷ []) ∷ (97 ∷ []) ∷ []; lens = 1 ∷ 1 ∷ [] }

abbrev request : Request
request = with_argv ((103 ∷ []) ∷ (97 ∷ []) ∷ []) (1 ∷ 1 ∷ [])

connect_lem_example :
    ((good.open_context [] 0 ≡ none) × (connect good (connection good 0) ≡ none))
    ⊎ ((x : ℕ) × (good.open_context [] 0 ≡ some x)
        × Opened good (connect good (connection good 0)) x 0)
connect_lem_example = connect_lem good (connection good 0)

excute_breaks : excute broken (connection broken 0) (some command) ≡ none
unfolding request_of param_count argv argv_len
excute_breaks = excute_lem broken (connection broken 0) command 0 request refl refl

-- Connected, a command, a query, and connected once more.
abbrev served : (c : Connect good) × Calls good (new good [] 0 0) 0 1 c
unfolding new connect excute query request_of param_count set_result
served = (
  _,
  called connects
      (called (queries (some command) empty)
        (called (excutes (some command)) (called connects begun refl) refl) refl)
      refl,
)

destroy-balance_example :
    ((destroy good served.0).contexts_made ≡ (destroy good served.0).contexts_freed + 0)
    × ((destroy good served.0).replies_made ≡ (destroy good served.0).replies_freed + 1)
destroy-balance_example = destroy-balance good [] 0 0 served.1

-- A connection that is refused.
abbrev refused_once : (c : Connect good) × Calls good (new good [] 3 0) 1 0 c
unfolding new connect
refused_once = (_, called connects begun refl)
