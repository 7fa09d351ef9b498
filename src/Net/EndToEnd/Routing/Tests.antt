-- ===== src/Net/EndToEnd/Routing/Tests.antt =====
-- A connection of the server is refused, its end is told, and then a session is accepted.
use Prim.Native.Nat.{min}
use cxxprogram.Prelude.{
  List, Option, [], ap, arith, false, inl, none, refl, some, sym, true, ℕ, ◌+◌, ◌==◌, ◌∷◌,
}
use cxxprogram.Prelude.Int.{pos}
use cxxprogram.Net.Session
use cxxprogram.Net.ContextPool
use cxxprogram.Net.Queue.{ConcurrentQueue, list_queue}
use cxxprogram.Utils.Snowflake
use cxxprogram.Utils.Snowflake.{twepoch}
use cxxprogram.Utils.Snowflake.Increasing.{IsSteady}
use cxxprogram.Net.Listener.{Pending, Shared, Listener, make_session, do_accept, accept_handler}
use cxxprogram.Net.Listener.Accepting.{IsServing}
use cxxprogram.Net.Server.{Packet, Server, Session as Handle, get_session}
use cxxprogram.Net.Server.History.{Change, opens, closes, change_all}
use cxxprogram.Net.Server.Registry.{Knows}
use cxxprogram.Net.EndToEnd.Routing.{
  Reach, here, next, accepts, connects, refused_ends, Reach-Knows,
}

abbrev clock : ℕ → ℕ
clock i = twepoch + min i 1

clock-IsSteady : IsSteady clock
clock-IsSteady = record { later = λ i. omega arith; times = λ i. omega arith }

abbrev shared : ℕ → ℕ → ℕ → Shared
shared time sequence readings = record {
  context_pool = record {
    contexts = 0 ∷ 1 ∷ [];
    thread_count = 2;
    thread_context_index = readings;
  };
  id_generate = record {
    last_timestamp = pos (twepoch + time);
    workerid = 0;
    datacenterid = 0;
    sequence = sequence;
    readings = readings;
  };
}

abbrev listening : Listener
listening = record {
  is_open = true;
  accepting = some (record { context = 1; sid = 0 });
  started = [];
}

abbrev one_started : Listener
one_started = record {
  is_open = true;
  accepting = some (record { context = 1; sid = 4194305 });
  started = record { context = 1; sid = 0 } ∷ [];
}

listening-IsServing : IsServing clock 2 (shared 0 0 1) listening
unfolding Snowflake.compose
listening-IsServing = record {
  ready = record {
    configured = record { worker = omega arith; datacenter = omega arith; counted = omega arith };
    past = omega arith;
  };
  noted = (omega arith, omega arith);
  descending = (omega arith, tt);
}

abbrev accepted : Handle
accepted = record { sid = 0; name = 1 }

abbrev changes : List Change
changes = opens accepted ∷ closes (record { sid = 4194304; name = 0 }) ∷ []

abbrev sid_of : Option Pending → ℕ
sid_of none = 0
sid_of (some p) = p.sid

three_steps : Reach clock 2 (shared 0 0 1) listening (shared 1 1 3) one_started changes
unfolding accept_handler make_session do_accept ContextPool.next Snowflake.next Snowflake.compose
    Session.connect Session.fresh
three_steps =
    next {h' = shared 1 0 2} {l' = listening}
      (next {h' = shared 1 0 2} {l' = listening}
        (next {h' = shared 0 0 1} {l' = listening} here
          (connects true false {session = record { context = 0; sid = 4194304 }} refl))
        (refused_ends (record { sid = 4194304; name = 0 }) (omega arith) tt
          (λ p e. ap (λ n. 4194304 == n) (sym (ap sid_of e)))))
      (accepts (record { context = 1; sid = 0 }) false refl refl)

abbrev packets : ConcurrentQueue Packet
packets = list_queue Packet

abbrev server : Server packets
server = record { sessions = []; msg_queue = [] }

Reach-Knows_example :
    Knows accepted changes (get_session packets (change_all packets server changes) 0)
Reach-Knows_example =
    Reach-Knows clock 2 packets server {h = shared 0 0 1} {h' = shared 1 1 3} {l = listening}
      {l' = one_started} {cs = changes} accepted clock-IsSteady listening-IsServing refl three_steps
      (inl refl)
