-- ===== src/Net/Session.antt =====
-- engine/net/tcp_session.h: a session's sends, reads and its end, as steps on one `io_context`, which
-- runs one handler at a time. asio's part is in the events: which handler comes next, and how an
-- operation ends. A handler is one step, since what other threads do meanwhile, `send(data, length)`,
-- only adds to `send_buffer_` under the lock; `send(buffer)` adds without it, and is taken as a step
-- too. The parser's answer comes with the event of a read.
pub mod Sending
pub mod Closing
pub mod Draining
pub mod Calls
mod Tests
use cxxprogram.Prelude.{
  Bool, List, Option, [], false, if◌then◌else◌, none, not, some, take, true, ℕ, ◌++◌, ◌+◌, ◌∷◌,
}
use cxxprogram.Net.TcpParser.{ParserCode, parse_ok, parse_wait, parse_close, parse_error}

-- What is posted to the context: the handlers of `send(data, length)`, `send(buffer)` and `close`.
pub data Task : Type 0 where
  flush : Task
  append_and_flush : List ℕ → Task
  shut : Task

pub record Session : Type 0 where
  -- `socket_.is_open()`.
  pub is_open : Bool
  pub send_buffer : List ℕ
  pub cache_buffer : List ℕ
  pub sending : Bool
  -- The bytes of the `async_write` that is under way.
  pub writing : Option (List ℕ)
  pub posted : List Task
  -- Whether an `async_read_some` is under way.
  pub reading : Bool
  -- The bytes that have been written, and the calls of `on_connect` and `on_close`.
  pub written : List ℕ
  pub connects : ℕ
  pub closes : ℕ

unfoldable pub fresh : Session
fresh = record {
  is_open = false;
  send_buffer = [];
  cache_buffer = [];
  sending = false;
  writing = none;
  posted = [];
  reading = false;
  written = [];
  connects = 0;
  closes = 0;
}

abbrev pub post : Session → Task → Session
post s t = record s { posted = s.posted ++ t ∷ [] }

unfoldable pub close : Session → Session
close s = post s shut

-- The handler that `close` posts.
unfoldable pub run_shut : Session → Session
run_shut s = if s.is_open then record s { is_open = false; closes = s.closes + 1 } else s

unfoldable pub send : Session → List ℕ → Session
send s bytes = post (record s { send_buffer = s.send_buffer ++ bytes }) flush

unfoldable pub send_shared : Session → List ℕ → Session
send_shared s bytes = post s (append_and_flush bytes)

abbrev pub is_nil : List ℕ → Bool
is_nil [] = true
is_nil (b ∷ bs) = false

-- What comes after the swap of the two buffers.
unfoldable pub write_cache : Session → Session
write_cache s =
    if is_nil s.cache_buffer
    then record s { sending = false }
    else record s { sending = true; writing = some s.cache_buffer }

unfoldable pub do_send : Session → Session
unfolding write_cache
do_send s =
    if s.is_open
    then write_cache (record s { send_buffer = s.cache_buffer; cache_buffer = s.send_buffer })
    else s

unfoldable pub run_flush : Session → Session
unfolding do_send
run_flush s = if s.sending then s else do_send s

unfoldable pub run_task : Session → Task → Session
unfolding run_flush run_shut
run_task s flush = run_flush s
run_task s (append_and_flush bytes) = run_flush (record s { send_buffer = s.send_buffer ++ bytes })
run_task s shut = run_shut s

unfoldable pub do_recv : Session → Session
do_recv s = record s { reading = true }

unfoldable pub start : Session → Session
unfolding do_recv
start s = do_recv (record s { connects = s.connects + 1 })

-- `connect`, with what the resolver and the socket answer; connecting opens the socket.
unfoldable pub connect : Session → Bool → Bool → Bool × Session
unfolding close start
connect s resolved accepted =
    if s.is_open
    then (false, s)
    else if not resolved
    then (false, close s)
    else let s' = record s { is_open = true } in
      if accepted then (true, start s') else (false, close s')

-- `async_connect`, which answers before the socket does; and its completion handler.
unfoldable pub async_connect : Session → Bool → Bool × Session
unfolding close
async_connect s resolved =
    if s.is_open
    then (false, s)
    else if not resolved
    then (false, close s)
    else (true, record s { is_open = true })

unfoldable pub on_connected : Session → Bool → Session
unfolding close start
on_connected s accepted = if accepted then start s else close s

-- The completion handler of `async_write`: all bytes went out, or an error after some of them.
unfoldable pub on_written : Session → List ℕ → Session
unfolding do_send
on_written s bytes =
    let s' = record s {
      sending = false;
      writing = none;
      written = s.written ++ bytes;
      cache_buffer = [];
    } in
    if is_nil s'.send_buffer then s' else do_send s'

unfoldable pub on_write_error : Session → List ℕ → Session
unfolding close
on_write_error s some_bytes =
    close (record s { sending = false; writing = none; written = s.written ++ some_bytes })

-- `ret_code > parser_code::parse_wait`.
abbrev pub is_refusal : ParserCode → Bool
is_refusal parse_ok = false
is_refusal parse_wait = false
is_refusal parse_close = true
is_refusal parse_error = true

-- The completion handler of `async_read_some`; the parser's answer, or an error.
unfoldable pub on_read : Session → ParserCode → Session
unfolding close do_recv
on_read s code = do_recv (if is_refusal code then close s else s)

unfoldable pub on_read_error : Session → Session
unfolding close
on_read_error s = close (record s { reading = false })

pub data Event : Type 0 where
  sends : List ℕ → Event
  sends_shared : List ℕ → Event
  -- The context runs the oldest posted handler.
  runs : Event
  writes : Event
  -- An error after so many bytes.
  fails_to_write : ℕ → Event
  reads : ParserCode → Event
  fails_to_read : Event

-- The context runs the oldest handler; `none`: there is none.
unfoldable pub run_head : Session → List Task → Option Session
unfolding run_task
run_head s [] = none
run_head s (t ∷ ts) = some (run_task (record s { posted = ts }) t)

-- The end of the write that is under way.
unfoldable pub end_write : Session → Option (List ℕ) → Option Session
unfolding on_written
end_write s none = none
end_write s (some bytes) = some (on_written s bytes)

unfoldable pub break_write : Session → Option (List ℕ) → ℕ → Option Session
unfolding on_write_error
break_write s none n = none
break_write s (some bytes) n = some (on_write_error s (take n bytes))

-- The end of the read that is under way.
unfoldable pub end_read : Session → Bool → ParserCode → Option Session
unfolding on_read
end_read s false code = none
end_read s true code = some (on_read s code)

unfoldable pub break_read : Session → Bool → Option Session
unfolding on_read_error
break_read s false = none
break_read s true = some (on_read_error s)

-- `none`: the event cannot happen in this state.
unfoldable pub step : Session → Event → Option Session
unfolding send send_shared run_head end_write break_write end_read break_read
step s (sends bytes) = some (send s bytes)
step s (sends_shared bytes) = some (send_shared s bytes)
step s runs = run_head s s.posted
step s writes = end_write s s.writing
step s (fails_to_write n) = break_write s s.writing n
step s (reads code) = end_read s s.reading code
step s fails_to_read = break_read s s.reading
