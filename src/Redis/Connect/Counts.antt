-- ===== src/Redis/Connect/Counts.antt =====
-- What each method of engine/redis/redis_connect.cpp does to the counts of contexts and replies.
use mathlib.Core.Option
use cxxprogram.Prelude.{
  Bool, List, Option, arith, false, if◌then◌else◌, none, not, refl, some, true, ℕ, ◌+◌, ◌==◌,
  until_zero, ◌>>=◌, ◌≡◌,
}
use cxxprogram.Redis.Command.{Command}
use cxxprogram.Redis.Result.{RedisResult, Reply, set_result}
use cxxprogram.Redis.Connect.{
  Hiredis, Request, Connect, Method, Query, answered, bytes_eq, close, close_and_log, connect,
  excute, excute_format, finish_connect, finish_excute, finish_ping, finish_query, finish_reply,
  free_reply, held, is_error, is_status, ping, query, query_format, request_of, pong_text,
  ping_text, with_format, select, select_index,
}

module _ (H : Hiredis) where
  open H use {Context, open_context, err, request}

  -- A context of which `connect` reads an error.
  abbrev pub refused : Option Context → ℕ
  refused none = 0
  refused (some x) = if err x == 0 then 0 else 1

  -- The reply that a query leaves in its result.
  abbrev pub handed : Bool → RedisResult → ℕ
  handed ok result = if ok then held result.reply else 0

  -- From `c` with so many replies not yet freed to `d`, with so many contexts refused and so many
  -- replies left.
  abbrev pub Balanced : Connect H → ℕ → ℕ → ℕ → Connect H → Type 0
  Balanced c taken lost left d =
      (d.contexts_made + c.contexts_freed + held c.context
        ≡ c.contexts_made + d.contexts_freed + lost + held d.context)
      × (d.replies_made + c.replies_freed + taken ≡ c.replies_made + d.replies_freed + left)

  abbrev pub Keeps : Connect H → ℕ → ℕ → Method H → Type 0
  Keeps c taken lost none = Unit {0}
  Keeps c taken lost (some (ok, d)) = Balanced c taken lost 0 d

  abbrev pub Leaves : Connect H → Query H → Type 0
  Leaves c none = Unit {0}
  Leaves c (some (ok, result, d)) = Balanced c 0 0 (handed ok result) d

  Keeps-answered :
      (c : Connect H) (x y : Context) (o : Option Reply) (m : Method H)
      → c.context ≡ some x
      → Keeps (answered H c (o, y)) (held o) 0 m
      → Keeps c 0 0 m
  Keeps-answered c x y o none e h = tt
  Keeps-answered c x y o (some (ok, d)) e h = ground (arith, h.0, h.1)

  Keeps-made :
      (c : Connect H) (y : Context) (o : Option Reply) (m : Method H)
      → c.context ≡ none
      → Keeps (answered H (record c { contexts_made = c.contexts_made + 1 }) (o, y)) (held o) 0 m
      → Keeps c 0 0 m
  Keeps-made c y o none e h = tt
  Keeps-made c y o (some (ok, d)) e h = ground (arith, h.0, h.1)

  Keeps-close :
      (c : Connect H) (lost : ℕ) (m : Method H) → Keeps (close H c) 0 lost m → Keeps c 0 lost m
  unfolding close
  Keeps-close c lost none h = tt
  Keeps-close c lost (some (ok, d)) h = omega (arith, h.0, h.1)

  pub close-Balanced : (c : Connect H) → Balanced c 0 0 0 (close H c)
  unfolding close
  close-Balanced c = omega arith

  -- Both sides of a test.
  Keeps-if :
      (c : Connect H) (taken lost : ℕ) (b : Bool) (m n : Method H)
      → Keeps c taken lost m
      → Keeps c taken lost n
      → Keeps c taken lost (if b then m else n)
  Keeps-if c taken lost true m n h k = h
  Keeps-if c taken lost false m n h k = k

  finish_connect-Keeps :
      (c : Connect H) (o : Option Reply) → Keeps c (held o) 0 (finish_connect H c o)
  unfolding finish_connect close
  finish_connect-Keeps c none = tt
  finish_connect-Keeps c (some r) =
      Keeps-if c 1 0 (is_error r.type) (some (false, free_reply H (close H c)))
        (some (true, free_reply H c)) (omega arith) (omega arith)

  finish_ping-Keeps : (c : Connect H) (o : Option Reply) → Keeps c (held o) 0 (finish_ping H c o)
  unfolding finish_ping
  finish_ping-Keeps c none = omega arith
  finish_ping-Keeps c (some r) = go (is_status r.type) r.str
    where
      go :
          (b : Bool) (s : Option (List ℕ))
          → Keeps c 1 0 (elim b [
            | false ↦ some (false, free_reply H c)
            | true ↦ Option.map (λ t. (bytes_eq (until_zero t) pong_text, free_reply H c)) s
          ])
      go false s = omega arith
      go true none = tt
      go true (some t) = omega arith

  finish_reply-Keeps :
      (c : Connect H) (o : Option Reply) → Keeps c (held o) 0 (some (finish_reply H c o))
  unfolding finish_reply
  finish_reply-Keeps c none = omega arith
  finish_reply-Keeps c (some r) = omega arith

  finish_excute-Keeps :
      (c : Connect H) (x : Context) (a : Option Reply × Context)
      → c.context ≡ some x
      → Keeps c 0 0 (finish_excute H c a)
  unfolding finish_excute close_and_log
  finish_excute-Keeps c x (o, y) e =
      Keeps-if c 0 0 (not (err y == 0)) none (some (finish_reply H (answered H c (o, y)) o)) tt (
        Keeps-answered c x y o (some (finish_reply H (answered H c (o, y)) o)) e
          (finish_reply-Keeps (answered H c (o, y)) o))

  finish_query-Leaves :
      (c : Connect H) (result : RedisResult) (x : Context) (a : Option Reply × Context)
      → c.context ≡ some x
      → Leaves c (finish_query H c result a)
  unfolding finish_query close_and_log set_result
  finish_query-Leaves c result x (o, y) e = go (not (err y == 0))
    where
      go :
          (b : Bool)
          → Leaves c (if b then none else some (true, set_result result o, answered H c (o, y)))
      go true = tt
      go false = ground (arith, e)

  -- A context is made and kept, or refused.
  select_index-Keeps :
      (c : Connect H) (x : Context)
      → c.context ≡ none
      → Keeps c 0 (refused (some x)) (select_index H c x)
  unfolding select_index close
  select_index-Keeps c x e = go (err x == 0)
    where
      made : Connect H
      made = record c { contexts_made = c.contexts_made + 1 }

      go :
          (b : Bool)
          → Keeps c 0 (if b then 0 else 1) (
              if not b
              then some (false, close H made)
              else finish_connect H
                  (answered H made (request x (select c.index)))
                  (request x (select c.index)).0)
      go false = ground (arith, e)
      go true =
          let (o, y) = request x (select c.index) in
          Keeps-made c y o (finish_connect H (answered H made (o, y)) o) e
            (finish_connect-Keeps (answered H made (o, y)) o)

  pub connect-Keeps : (c : Connect H) → Keeps c 0 (refused (open_context c.ip c.port)) (connect H c)
  unfolding connect close
  connect-Keeps c = go (open_context c.ip c.port)
    where
      go : (o : Option Context) → Keeps c 0 (refused o) (o >>= select_index H (close H c))
      go none = tt
      go (some x) =
          Keeps-close c (refused (some x)) (select_index H (close H c) x)
            (select_index-Keeps (close H c) x refl)

  -- A method that needs a connection, and answers false without one.
  Keeps-context :
      (c : Connect H) (m : Context → Method H)
      → ((x : Context) → c.context ≡ some x → Keeps c 0 0 (m x))
      → Keeps c 0 0 (elim c.context [ none ↦ some (false, c) | some x ↦ m x ])
  Keeps-context c m h = go c.context refl
    where
      go :
          (o : Option Context)
          → c.context ≡ o
          → Keeps c 0 0 (elim o [ none ↦ some (false, c) | some x ↦ m x ])
      go none e = omega arith
      go (some x) e = h x e

  Leaves-context :
      (c : Connect H) (result : RedisResult) (m : Context → Query H)
      → ((x : Context) → c.context ≡ some x → Leaves c (m x))
      → Leaves c (elim c.context [ none ↦ some (false, result, c) | some x ↦ m x ])
  Leaves-context c result m h = go c.context refl
    where
      go :
          (o : Option Context)
          → c.context ≡ o
          → Leaves c (elim o [ none ↦ some (false, result, c) | some x ↦ m x ])
      go none e = omega arith
      go (some x) e = h x e

  pub ping-Keeps : (c : Connect H) → Keeps c 0 0 (ping H c)
  unfolding ping
  ping-Keeps c = Keeps-context c _ λ x e.
      let (o, y) = request x (with_format ping_text) in
      Keeps-answered c x y o (finish_ping H (answered H c (o, y)) o) e
        (finish_ping-Keeps (answered H c (o, y)) o)

  pub excute-Keeps : (c : Connect H) (k : Option Command) → Keeps c 0 0 (excute H c k)
  unfolding excute
  excute-Keeps c none = Keeps-context c (λ x. some (false, c)) λ x e. omega arith
  excute-Keeps c (some command) = Keeps-context c _ λ x e. send x (request_of H command) e
    where
      send :
          (x : Context) (q : Option Request)
          → c.context ≡ some x
          → Keeps c 0 0 (q >>= λ r. finish_excute H c (request x r))
      send x none e = tt
      send x (some q) e = finish_excute-Keeps c x (request x q) e

  pub excute_format-Keeps :
      (c : Connect H) (format : List ℕ) → Keeps c 0 0 (excute_format H c format)
  unfolding excute_format
  excute_format-Keeps c format =
      Keeps-context c _ λ x e. finish_excute-Keeps c x (request x (with_format format)) e

  pub query-Leaves :
      (c : Connect H) (k : Option Command) (result : RedisResult) → Leaves c (query H c k result)
  unfolding query
  query-Leaves c none result =
      Leaves-context c result (λ x. some (false, result, c)) λ x e. omega arith
  query-Leaves c (some command) result =
      Leaves-context c result _ λ x e. send x (request_of H command) e
    where
      send :
          (x : Context) (q : Option Request)
          → c.context ≡ some x
          → Leaves c (q >>= λ r. finish_query H c result (request x r))
      send x none e = tt
      send x (some q) e = finish_query-Leaves c result x (request x q) e

  pub query_format-Leaves :
      (c : Connect H) (result : RedisResult) (format : List ℕ)
      → Leaves c (query_format H c result format)
  unfolding query_format
  query_format-Leaves c result format =
      Leaves-context c result _
        λ x e. finish_query-Leaves c result x (request x (with_format format)) e
