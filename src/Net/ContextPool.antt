-- ===== src/Net/ContextPool.antt =====
-- engine/net/context_pool.h and context_pool.cpp: the event loops, handed out in turn. A context is
-- named by its number; its thread and its `io_context` are asio's.
pub mod RoundRobin
mod Tests
use mathlib.Core.Option
use cxxprogram.Prelude.{
  List, Option, [], get_elem?, if◌then◌else◌, leb, length, ltb, none, suc, zero, ℕ, ◌%◌, ◌*◌, ◌+◌,
  ◌-◌, ◌==◌, ◌^◌, ◌||◌, ◌∷◌,
}

pub record ContextPool : Type 0 where
  pub contexts : List ℕ
  pub thread_count : ℕ
  -- `int64_t`; it is never negative.
  pub thread_context_index : ℕ

abbrev pub int64_max : ℕ
int64_max = 2 ^ 63 - 1

-- `start, start + 1, …`, in the order of `emplace_back`.
abbrev pub contexts_from : ℕ → ℕ → List ℕ
contexts_from start zero = []
contexts_from start (suc n) = start ∷ contexts_from (suc start) n

-- `hardware_concurrency() * 2 + 1` is computed in `unsigned int`.
unfoldable pub cpu_core_num : ℕ → ℕ
cpu_core_num hardware = (hardware * 2 + 1) % 2 ^ 32

unfoldable pub new : ℕ → ℕ → ContextPool
unfolding cpu_core_num
new hardware thread_count =
    let cores = cpu_core_num hardware in
    let n = if thread_count == 0 || ltb cores thread_count then cores else thread_count in
    record { contexts = contexts_from 0 n; thread_count = n; thread_context_index = 0 }

-- `none`: a division by zero, or the exception of `at`.
unfoldable pub next : ContextPool → Option (ℕ × ContextPool)
next p =
    let bumped = p.thread_context_index + 1 in
    let index = bumped % p.thread_count in
    let kept = if leb int64_max bumped then 0 else bumped in
    if p.thread_count == 0
    then none
    else Option.map (λ c. (c, record p { thread_context_index = kept }))
        (get_elem? p.contexts index)

-- `none` is `nullptr`.
unfoldable pub get : ContextPool → ℕ → Option ℕ
get p index = if leb (length p.contexts) index then none else get_elem? p.contexts index

-- `thread_count_` is kept.
unfoldable pub stop : ContextPool → ContextPool
stop p = record p { contexts = [] }
