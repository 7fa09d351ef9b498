-- ===== src/Net/Context.antt =====
-- engine/net/context.h and context.cpp: a thread that runs an `io_context`, and `stop`, which another
-- thread calls, step by step. Of asio this is used: with a work guard, `run` comes back once `stop` was
-- called, and not before.
pub mod Stopping
mod Tests
use cxxprogram.Prelude.{Bool, Option, false, if◌then◌else◌, none, some, suc, true, ℕ, ◌≡◌}

-- Where the thread is: before `make_work_guard`, before `run`, in it, and at its end.
pub data Loop : Type 0 where
  starting guarded running ended : Loop

-- Where the caller of `stop` is: at the test of `joinable`, at `io_context_.stop`, at `join`, and back.
pub data Caller : Type 0 where
  tests_joinable stops joins back : Caller

pub record Context : Type 0 where
  pub loop : Loop
  pub joinable : Bool
  -- Whether `io_context_.stop` was called.
  pub stopped : Bool

-- The constructor, at the start of the thread.
unfoldable pub new : Context
new = record { loop = starting; joinable = true; stopped = false }

-- A step of the thread; `none`: it waits, or it has ended.
unfoldable pub loop_turn : Context → Loop → Option Context
loop_turn c starting = some (record c { loop = guarded })
loop_turn c guarded = some (record c { loop = running })
loop_turn c running = if c.stopped then some (record c { loop = ended }) else none
loop_turn c ended = none

abbrev pub is_ended : Loop → Bool
is_ended starting = false
is_ended guarded = false
is_ended running = false
is_ended ended = true

-- A step of `stop`; `none`: it waits in `join`, or it is back.
unfoldable pub stop_turn : Context → Caller → Option (Context × Caller)
stop_turn c tests_joinable = some (c, if c.joinable then stops else back)
stop_turn c stops = some (record c { stopped = true }, joins)
stop_turn c joins = if is_ended c.loop then some (record c { joinable = false }, back) else none
stop_turn c back = none

-- So many steps of the two, in any order, from a call of `stop`.
pub data Turns (c : Context) : ℕ → Context → Caller → Type 0 where
  calls_stop : Turns c 0 c tests_joinable
  loops :
      {n : ℕ} {d e : Context} {w : Caller}
      → Turns c n d w
      → loop_turn d d.loop ≡ some e
      → Turns c (suc n) e w
  goes_on :
      {n : ℕ} {d : Context} {w : Caller} {r : Context × Caller}
      → Turns c n d w
      → stop_turn d w ≡ some r
      → Turns c (suc n) r.0 r.1
