-- ===== src/Redis/Connect.antt =====
-- engine/redis/redis_connect.h and redis_connect.cpp: the connection. hiredis is not part of the
-- repository: `Hiredis` has the calls that the code makes of it, with the state of a connection left
-- to it. A method returns its result and the new object; `none` is a null pointer that is followed.
-- The arguments of a log line are evaluated before the call, as in C++. The object counts the contexts
-- and the replies that it got from hiredis, and those that it gave back by `redisFree` and
-- `freeReplyObject`.
pub mod Faults
pub mod Counts
pub mod Objects
mod Tests
use mathlib.Core.Option
use cxxprogram.Prelude.{
  Bool, List, Option, [], false, if◌then◌else◌, ltb, none, not, some, true, until_zero, ℕ, ◌&&◌,
  ◌+◌, ◌==◌, ◌>>=◌, ◌∷◌,
}
use cxxprogram.Redis.Command.{Command, param_count, argv, argv_len, to_text}
use cxxprogram.Redis.Result.{Reply, ReplyType, RedisResult, set_result, is_failure}

-- A request: the parameters with their lengths, or a format.
pub data Request : Type 0 where
  with_argv : List (List ℕ) → List ℕ → Request
  with_format : List ℕ → Request
  select : ℕ → Request

pub record Hiredis : Type 1 where
  pub Context : Type 0
  -- `redisConnectWithTimeout`, which may return a null pointer; `err`; and `redisCommand` or
  -- `redisCommandArgv`.
  pub open_context : List ℕ → ℕ → Option Context
  pub err : Context → ℕ
  pub request : Context → Request → Option Reply × Context

-- "ping" and "pong".
abbrev pub ping_text : List ℕ
ping_text = 112 ∷ 105 ∷ 110 ∷ 103 ∷ []

abbrev pub pong_text : List ℕ
pong_text = 112 ∷ 111 ∷ 110 ∷ 103 ∷ []

abbrev pub bytes_eq : List ℕ → List ℕ → Bool
bytes_eq [] [] = true
bytes_eq [] (y ∷ ys) = false
bytes_eq (x ∷ xs) [] = false
bytes_eq (x ∷ xs) (y ∷ ys) = x == y && bytes_eq xs ys

abbrev pub is_error : ReplyType → Bool
is_error ReplyType.error = true
is_error t = false

abbrev pub is_status : ReplyType → Bool
is_status ReplyType.status = true
is_status t = false

-- 1 for an object that is there.
abbrev pub held {ℓ} : {A : Type ℓ} → Option A → ℕ
held none = 0
held (some x) = 1

module _ (H : Hiredis) where
  open H use {Context, open_context, err, request}

  pub record Connect : Type 0 where
    pub ip : List ℕ
    pub port : ℕ
    pub index : ℕ
    pub context : Option Context
    pub contexts_made : ℕ
    pub contexts_freed : ℕ
    pub replies_made : ℕ
    pub replies_freed : ℕ

  unfoldable pub new : List ℕ → ℕ → ℕ → Connect
  new ip port index = record {
    ip = ip;
    port = port;
    index = index;
    context = none;
    contexts_made = 0;
    contexts_freed = 0;
    replies_made = 0;
    replies_freed = 0;
  }

  abbrev pub Method : Type 0
  Method = Option (Bool × Connect)

  unfoldable pub is_connect : Connect → Bool
  is_connect c = elim c.context [ none ↦ false | some x ↦ true ]

  unfoldable pub close : Connect → Connect
  close c = record c { context = none; contexts_freed = c.contexts_freed + held c.context }

  -- The destructor.
  unfoldable pub destroy : Connect → Connect
  unfolding close
  destroy c = close c

  -- The context and a reply, where there is one, after a request; and `freeReplyObject`.
  abbrev pub answered : Connect → Option Reply × Context → Connect
  answered c (reply, x) = record c { context = some x; replies_made = c.replies_made + held reply }

  abbrev pub free_reply : Connect → Connect
  free_reply c = record c { replies_freed = c.replies_freed + 1 }

  unfoldable pub get_err : Connect → ℕ
  get_err c = elim c.context [ none ↦ 1 | some x ↦ err x ]

  -- `get_err_str`, with what `errstr` has; "redis_context_ is null" without a connection.
  unfoldable pub get_err_str : (Context → List ℕ) → Connect → List ℕ
  get_err_str errstr c = elim c.context [
    | none ↦
        114 ∷ 101 ∷ 100 ∷ 105 ∷ 115 ∷ 95 ∷ 99 ∷ 111 ∷ 110 ∷ 116 ∷ 101 ∷ 120 ∷ 116 ∷ 95 ∷ 32 ∷ 105
        ∷ 115 ∷ 32 ∷ 110 ∷ 117 ∷ 108 ∷ 108 ∷ []
    | some x ↦ errstr x
  ]

  -- `close()`, and then a log line that reads `redis_context_->err`.
  unfoldable pub close_and_log : Connect → Method
  unfolding close
  close_and_log c = let c' = close c in Option.map (λ x. (false, c')) c'.context

  -- A reply to the selection of the index, or none.
  unfoldable pub finish_connect : Connect → Option Reply → Method
  unfolding close close_and_log
  finish_connect c none = close_and_log c
  finish_connect c (some r) =
      if is_error r.type then some (false, free_reply (close c)) else some (true, free_reply c)

  -- A context that was made; the error is read from it before anything else.
  unfoldable pub select_index : Connect → Context → Method
  unfolding close finish_connect
  select_index c x =
      let made = record c { contexts_made = c.contexts_made + 1 } in
      let answer = request x (select c.index) in
      if not (err x == 0)
      then some (false, close made)
      else finish_connect (answered made answer) answer.0

  unfoldable pub connect : Connect → Method
  unfolding close select_index
  connect c = let c' = close c in open_context c.ip c.port >>= select_index c'

  -- What `ping` does with the answer.
  unfoldable pub finish_ping : Connect → Option Reply → Method
  finish_ping c none = some (false, c)
  finish_ping c (some r) = elim (is_status r.type) [
    | false ↦ some (false, free_reply c)
    | true ↦ Option.map (λ s. (bytes_eq (until_zero s) pong_text, free_reply c)) r.str
  ]

  unfoldable pub ping : Connect → Method
  unfolding finish_ping
  ping c = elim c.context [
    | none ↦ some (false, c)
    | some x ↦
        let answer = request x (with_format ping_text) in finish_ping (answered c answer) answer.0
  ]

  -- What both `excute` functions do with a connection without an error.
  unfoldable pub finish_reply : Connect → Option Reply → Bool × Connect
  finish_reply c none = (false, c)
  finish_reply c (some r) = (not (is_failure r.type), free_reply c)

  -- What both `excute` functions do with the answer.
  unfoldable pub finish_excute : Connect → Option Reply × Context → Method
  unfolding close_and_log finish_reply
  finish_excute c (reply, x) =
      let c' = answered c (reply, x) in
      if not (err x == 0) then close_and_log c' else some (finish_reply c' reply)

  -- The request that a command makes: a command of one parameter is sent as a format.
  unfoldable pub request_of : Command → Option Request
  request_of command =
      if ltb 1 (param_count command)
      then some (with_argv (argv command) (argv_len command))
      else Option.map (λ (text, k). with_format (until_zero text)) (to_text command)

  unfoldable pub excute : Connect → Option Command → Method
  unfolding finish_excute request_of
  excute c command = elim c.context [
    | none ↦ some (false, c)
    | some x ↦ elim command [
      | none ↦ some (false, c)
      | some k ↦ do q ← request_of k; finish_excute c (request x q)
    ]
  ]

  -- `format` holds no conversion: the list of arguments is handed on as one argument, which a
  -- conversion would misread.
  unfoldable pub excute_format : Connect → List ℕ → Method
  unfolding finish_excute
  excute_format c format = elim c.context [
    | none ↦ some (false, c)
    | some x ↦ finish_excute c (request x (with_format format))
  ]

  abbrev pub Query : Type 0
  Query = Option (Bool × RedisResult × Connect)

  unfoldable pub finish_query : Connect → RedisResult → Option Reply × Context → Query
  unfolding close_and_log
  finish_query c result (reply, x) =
      let c' = answered c (reply, x) in
      if not (err x == 0)
      then Option.map (λ (b, d). (b, result, d)) (close_and_log c')
      else some (true, set_result result reply, c')

  unfoldable pub query : Connect → Option Command → RedisResult → Query
  unfolding finish_query request_of
  query c command result = elim c.context [
    | none ↦ some (false, result, c)
    | some x ↦ elim command [
      | none ↦ some (false, result, c)
      | some k ↦ do q ← request_of k; finish_query c result (request x q)
    ]
  ]

  unfoldable pub query_format : Connect → RedisResult → List ℕ → Query
  unfolding finish_query
  query_format c result format = elim c.context [
    | none ↦ some (false, result, c)
    | some x ↦ finish_query c result (request x (with_format format))
  ]
