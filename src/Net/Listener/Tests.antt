-- ===== src/Net/Listener/Tests.antt =====
-- A listener that accepts one session while the server connects another.
use Prim.Native.Nat.{min}
use cxxprogram.Prelude.{[], arith, false, none, refl, some, true, ℕ, ◌+◌, ◌∷◌, ◌≡◌, ◌⊎◌}
use cxxprogram.Prelude.Int.{negsuc, pos}
use cxxprogram.Net.Session
use cxxprogram.Net.ContextPool
use cxxprogram.Utils.Snowflake
use cxxprogram.Utils.Snowflake.{Snowflake, twepoch}
use cxxprogram.Net.ContextPool.{ContextPool}
use cxxprogram.Utils.Snowflake.Increasing.{IsSteady}
use cxxprogram.Net.Listener.{
  Shared, Listener, Answers, listen, make_session, do_accept, accept_handler, server_connect,
}
use cxxprogram.Net.Listener.Accepting.{
  IsServing, Reach, here, next, accepts, connects, listen_lem, Reach-Descending,
}

abbrev clock : ℕ → ℕ
clock i = twepoch + min i 1

clock-IsSteady : IsSteady clock
clock-IsSteady = record { later = λ i. omega arith; times = λ i. omega arith }

abbrev shared : Shared
shared = record {
  context_pool = record { contexts = 0 ∷ 1 ∷ []; thread_count = 2; thread_context_index = 0 };
  id_generate = record {
    last_timestamp = negsuc 0;
    workerid = 0;
    datacenterid = 0;
    sequence = 0;
    readings = 0;
  };
}

abbrev shared_after : ℕ → ℕ → ℕ → Shared
shared_after time sequence readings = record {
  context_pool = record {
    contexts = 0 ∷ 1 ∷ [];
    thread_count = 2;
    thread_context_index = readings;
  };
  id_generate = record {
    last_timestamp = pos (twepoch + time);
    workerid = 0;
    datacenterid = 0;
    sequence = sequence;
    readings = readings;
  };
}

abbrev closed : Listener
closed = record { is_open = false; accepting = none; started = [] }

abbrev all_pass : Answers
all_pass = record { resolves = true; opens = true; binds = true; listens = true }

listen_lem_example :
    ((closed.is_open ≡ true)
      × (listen clock 2 shared closed all_pass ≡ some (true, shared, closed)))
    ⊎ (((false ≡ false)
          × (true ≡ true)
          × (listen clock 2 shared closed all_pass
              ≡ some (
                true,
                shared_after 0 0 1,
                record {
                  is_open = true;
                  accepting = some (record { context = 1; sid = 0 });
                  started = [];
                },
              )))
        ⊎ ((false ≡ false)
            × (true ≡ false)
            × (listen clock 2 shared closed all_pass ≡ some (false, shared, closed))))
unfolding make_session ContextPool.next Snowflake.next Snowflake.compose
listen_lem_example =
    listen_lem clock 2 shared closed all_pass {session = record { context = 1; sid = 0 }}
      {h' = shared_after 0 0 1} refl

-- After `listen`, a connection of the server, and an accept.
abbrev listening : Listener
listening = record {
  is_open = true;
  accepting = some (record { context = 1; sid = 0 });
  started = [];
}

abbrev one_started : Listener
one_started = record {
  is_open = true;
  accepting = some (record { context = 1; sid = 4194305 });
  started = record { context = 1; sid = 0 } ∷ [];
}

listening-IsServing : IsServing clock 2 (shared_after 0 0 1) listening
unfolding Snowflake.compose
listening-IsServing = record {
  ready = record {
    configured = record { worker = omega arith; datacenter = omega arith; counted = omega arith };
    past = omega arith;
  };
  noted = (omega arith, omega arith);
  descending = (omega arith, tt);
}

two_steps : Reach clock 2 (shared_after 0 0 1) listening (shared_after 1 1 3) one_started
unfolding accept_handler server_connect make_session do_accept ContextPool.next Snowflake.next
    Snowflake.compose Session.connect Session.fresh
two_steps =
    next {h' = shared_after 1 0 2} {l' = listening}
      (next {h' = shared_after 0 0 1} {l' = listening} here
        (connects true true false {id = 0} refl))
      (accepts (record { context = 1; sid = 0 }) false refl refl)

Reach-Descending_example : IsServing clock 2 (shared_after 1 1 3) one_started
Reach-Descending_example =
    Reach-Descending clock 2 {h = shared_after 0 0 1} {l = listening} {h' = shared_after 1 1 3}
      {l' = one_started} clock-IsSteady listening-IsServing two_steps
