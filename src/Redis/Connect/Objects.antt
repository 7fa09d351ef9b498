-- ===== src/Redis/Connect/Objects.antt =====
-- The contexts and the replies that a connection of engine/redis/redis_connect.cpp gets from hiredis,
-- and what becomes of them in a sequence of calls.
use mathlib.Core.Option
use cxxprogram.Prelude.{List, Option, arith, none, some, subst, ℕ, ◌+◌, ◌≡◌}
use cxxprogram.Redis.Command.{Command}
use cxxprogram.Redis.Result.{RedisResult}
use cxxprogram.Redis.Connect.{
  Hiredis, Connect, Method, Query, close, connect, destroy, excute, excute_format, new, ping, query,
  query_format,
}
use cxxprogram.Redis.Connect.Counts.{
  Balanced, Keeps, Leaves, handed, refused, close-Balanced, connect-Keeps, excute-Keeps,
  excute_format-Keeps, ping-Keeps, query-Leaves, query_format-Leaves,
}

module _ (H : Hiredis) where
  open H use {open_context}

  pub data Call : Type 0 where
    connects closes pings : Call
    excutes : Option Command → Call
    excutes_format : List ℕ → Call
    queries : Option Command → RedisResult → Call
    queries_format : RedisResult → List ℕ → Call

  abbrev pub after_method : ℕ → Method H → Option (ℕ × ℕ × Connect H)
  after_method n m = Option.map (λ (ok, d). (n, 0, d)) m

  abbrev pub after_query : Query H → Option (ℕ × ℕ × Connect H)
  after_query m = Option.map (λ (ok, result, d). (0, handed H ok result, d)) m

  -- A call that comes back: the contexts that were refused H in it, the replies that it left in a
  -- result, and the object after it.
  abbrev pub call : Connect H → Call → Option (ℕ × ℕ × Connect H)
  call c connects = after_method (refused H (open_context c.ip c.port)) (connect H c)
  call c closes = some (0, 0, close H c)
  call c pings = after_method 0 (ping H c)
  call c (excutes k) = after_method 0 (excute H c k)
  call c (excutes_format format) = after_method 0 (excute_format H c format)
  call c (queries k result) = after_query (query H c k result)
  call c (queries_format result format) = after_query (query_format H c result format)

  -- Calls one after another, with how many contexts were refused H and how many replies are in results.
  pub data Calls (c : Connect H) : ℕ → ℕ → Connect H → Type 0 where
    begun : Calls c 0 0 c
    called :
        {m n i j : ℕ} {d e : Connect H} (k : Call)
        → Calls c m n d
        → call d k ≡ some (i, j, e)
        → Calls c (m + i) (n + j) e

  -- What a call does to the counts, if it comes back.
  abbrev Counted : Connect H → Option (ℕ × ℕ × Connect H) → Type 0
  Counted c none = Unit {0}
  Counted c (some (lost, left, d)) = Balanced H c 0 lost left d

  Counted-method :
      (c : Connect H) (lost : ℕ) (m : Method H)
      → Keeps H c 0 lost m
      → Counted c (after_method lost m)
  Counted-method c lost none h = h
  Counted-method c lost (some (ok, d)) h = h

  Counted-query : (c : Connect H) (m : Query H) → Leaves H c m → Counted c (after_query m)
  Counted-query c none h = h
  Counted-query c (some (ok, result, d)) h = h

  call-Counted : (c : Connect H) (k : Call) → Counted c (call c k)
  call-Counted c connects = Counted-method c _ (connect H c) (connect-Keeps H c)
  call-Counted c closes = close-Balanced H c
  call-Counted c pings = Counted-method c 0 (ping H c) (ping-Keeps H c)
  call-Counted c (excutes k) = Counted-method c 0 (excute H c k) (excute-Keeps H c k)
  call-Counted c (excutes_format format) =
      Counted-method c 0 (excute_format H c format) (excute_format-Keeps H c format)
  call-Counted c (queries k result) =
      Counted-query c (query H c k result) (query-Leaves H c k result)
  call-Counted c (queries_format result format) =
      Counted-query c (query_format H c result format) (query_format-Leaves H c result format)

  Calls-Balanced :
      {c d : Connect H} {lost left : ℕ} → Calls c lost left d → Balanced H c 0 lost left d
  Calls-Balanced begun = omega arith
  Calls-Balanced (called {d = d} k calls e) =
      let before = Calls-Balanced calls in
      let after = subst (Counted d) e (call-Counted d k) in
      omega (arith, before.0, before.1, after.0, after.1)

  -- After any calls on a new connection that come back, whatever the server answers, the destructor
  -- leaves no context but those of which `connect` read an error, each of them lost; and every reply
  -- has been freed, but those that queries left in their results.
  pub destroy-balance :
      (ip : List ℕ) (port index : ℕ) {lost left : ℕ} {c : Connect H}
      → Calls (new H ip port index) lost left c
      → ((destroy H c).contexts_made ≡ (destroy H c).contexts_freed + lost)
        × ((destroy H c).replies_made ≡ (destroy H c).replies_freed + left)
  unfolding destroy new
  destroy-balance ip port index calls =
      let counts = Calls-Balanced calls in omega (arith, counts.0, counts.1)
