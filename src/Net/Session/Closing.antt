-- ===== src/Net/Session/Closing.antt =====
-- How a session of engine/net/tcp_session.h ends: `close`, a failed write, a refused connection.
use cxxprogram.Prelude.{
  Bool, List, Option, [], ap, arith, false, if◌then◌else◌, inl, inr, none, refl, some, subst, take,
  true, ℕ, ◌++◌, ◌+◌, ◌∙◌, ◌∷◌, ◌≡◌,
}
use cxxprogram.Net.TcpParser.{ParserCode}
use cxxprogram.Net.Session.Sending.Buffers.{IsSending, Busy, run_flush-free, do_send-something}
use cxxprogram.Net.Session.Sending.Handlers.{landed}
use cxxprogram.Net.Session.{
  post, Session, Task, flush, append_and_flush, shut, Event, sends, sends_shared, runs, writes,
  fails_to_write, reads, fails_to_read, step, run_head, end_write, break_write, end_read,
  break_read, do_send, on_written, on_write_error, on_read, on_read_error, run_task, run_flush,
  do_send, run_shut, send, send_shared, is_nil, is_refusal, connect, close, do_recv,
}

-- 1 while the socket is open.
abbrev pub open_count : Session → ℕ
open_count s = if s.is_open then 1 else 0

abbrev pub balance : Session → ℕ
balance s = s.closes + open_count s

run_flush-balance : (s : Session) → balance (run_flush s) ≡ balance s
unfolding run_flush
run_flush-balance s = ground arith

run_task-balance : (s : Session) (t : Task) → balance (run_task s t) ≡ balance s
unfolding run_task run_shut
run_task-balance s flush = run_flush-balance s
run_task-balance s (append_and_flush bytes) = run_flush-balance _
run_task-balance s shut = ground arith

on_written-balance : (s : Session) (bytes : List ℕ) → balance (on_written s bytes) ≡ balance s
unfolding on_written
on_written-balance s bytes = ground arith

on_read-balance :
    (s : Session) (b : Bool) → balance (do_recv (if b then close s else s)) ≡ balance s
unfolding do_recv close
on_read-balance s true = refl
on_read-balance s false = refl

balance_of :
    (s t : Session) {u : Session} → balance t ≡ balance s → some t ≡ some u → balance u ≡ balance s
balance_of s t {u} h e =
    subst (λ (o : Option Session). elim o [ none ↦ Unit {0} | some r ↦ balance r ≡ balance s ]) e h

run_head-balance :
    (s : Session) (ts : List Task) {t : Session} → run_head s ts ≡ some t → balance t ≡ balance s
unfolding run_head
run_head-balance s [] e = cc
run_head-balance s (x ∷ ts) e = balance_of s _ (run_task-balance (record s { posted = ts }) x) e

end_write-balance :
    (s : Session) (o : Option (List ℕ)) {t : Session}
    → end_write s o ≡ some t
    → balance t ≡ balance s
unfolding end_write
end_write-balance s none e = cc
end_write-balance s (some bytes) e = balance_of s _ (on_written-balance s bytes) e

break_write-balance :
    (s : Session) (o : Option (List ℕ)) (n : ℕ) {t : Session}
    → break_write s o n ≡ some t
    → balance t ≡ balance s
unfolding break_write on_write_error close
break_write-balance s none n e = cc
break_write-balance s (some bytes) n e = balance_of s _ refl e

end_read-balance :
    (s : Session) (b : Bool) (code : ParserCode) {t : Session}
    → end_read s b code ≡ some t
    → balance t ≡ balance s
unfolding end_read on_read
end_read-balance s false code e = cc
end_read-balance s true code e = balance_of s _ (on_read-balance s (is_refusal code)) e

break_read-balance :
    (s : Session) (b : Bool) {t : Session} → break_read s b ≡ some t → balance t ≡ balance s
unfolding break_read on_read_error close
break_read-balance s false e = cc
break_read-balance s true e = balance_of s _ refl e

-- `on_close` is called exactly when the socket goes from open to closed, whatever event comes: the
-- calls of `on_close`, and 1 while the socket is open, have the same sum after every event.
pub step-balance :
    (s : Session) (e : Event) {t : Session}
    → step s e ≡ some t
    → t.closes + open_count t ≡ s.closes + open_count s
unfolding step send send_shared
step-balance s (sends bytes) e = balance_of s _ refl e
step-balance s (sends_shared bytes) e = balance_of s _ refl e
step-balance s runs e = run_head-balance s s.posted e
step-balance s writes e = end_write-balance s s.writing e
step-balance s (fails_to_write n) e = break_write-balance s s.writing n e
step-balance s (reads code) e = end_read-balance s s.reading code e
step-balance s fails_to_read e = break_read-balance s s.reading e

refused_state :
    (s : Session)
    → s.is_open ≡ false
    → connect s true false ≡ (false, post (record s { is_open = true }) shut)
unfolding connect close
refused_state s e = ground arith

-- A connection that is refused after the socket was opened: the session ends with a call of
-- `on_close` and without one of `on_connect`, when nothing else is posted.
pub connect-refused :
    (s : Session)
    → s.is_open ≡ false
    → s.posted ≡ []
    → ((connect s true false).0 ≡ false)
      × ((u : Session) × (step (connect s true false).1 runs ≡ some u)
          × (u.connects ≡ s.connects)
          × (u.closes ≡ s.closes + 1)
          × (u.is_open ≡ false))
unfolding step run_head run_task run_shut
connect-refused s e p =
    let u : Session = record s { posted = []; is_open = false; closes = s.closes + 1 } in
    let run : step (connect s true false).1 runs ≡ some u =
      ap (λ (r : Bool × Session). step r.1 runs) (refused_state s e)
      ∙ ap
          (λ (ts : List Task).
            run_head (record s { posted = ts ++ shut ∷ []; is_open = true }) (ts ++ shut ∷ []))
          p in
    (ap (λ (r : Bool × Session). r.0) (refused_state s e), (u, run, refl, refl, refl))

-- The session after a write has failed behind some bytes, and `flush`, posted before, has run.
abbrev resumed : Session → List ℕ → List Task → Session
resumed s some_bytes rest = record s {
  posted = rest ++ shut ∷ [];
  sending = true;
  written = s.written ++ some_bytes;
  writing = some s.send_buffer;
  send_buffer = s.cache_buffer;
  cache_buffer = s.send_buffer;
}

on_write_error-runs :
    (s : Session) (some_bytes : List ℕ) (rest : List Task)
    → s.is_open ≡ true
    → s.posted ≡ flush ∷ rest
    → is_nil s.send_buffer ≡ false
    → step (on_write_error s some_bytes) runs ≡ some (resumed s some_bytes rest)
unfolding step run_head run_task on_write_error close
on_write_error-runs s some_bytes rest o p more =
    let failed = record s {
      posted = rest ++ shut ∷ [];
      sending = false;
      writing = none;
      written = s.written ++ some_bytes;
    } in
    ap (λ (ts : List Task). run_head (on_write_error s some_bytes) (ts ++ shut ∷ [])) p
    ∙ ap (λ (t : Session). some t) (run_flush-free failed refl ∙ do_send-something failed o more)

-- The end of that write begins one of the old bytes.
resumed-writes :
    (s : Session) (some_bytes : List ℕ) (rest : List Task)
    → s.is_open ≡ true
    → is_nil s.cache_buffer ≡ false
    → step (resumed s some_bytes rest) writes
      ≡ some (record (resumed s some_bytes rest) {
        written = (s.written ++ some_bytes) ++ s.send_buffer;
        writing = some s.cache_buffer;
        send_buffer = [];
        cache_buffer = s.cache_buffer;
      })
unfolding step end_write on_written
resumed-writes s some_bytes rest o c =
    let now = landed (resumed s some_bytes rest) s.send_buffer in
    let again : on_written (resumed s some_bytes rest) s.send_buffer ≡ do_send now = rw c refl in
    ap (λ (t : Session). some t) (again ∙ do_send-something now o c)

-- In a session that keeps the invariant, is open, writes `bytes`, has more bytes that wait and the
-- handler of a `send` as the next one: the write can fail after any number of bytes, that handler can
-- run, and two writes can end; and then the part of `bytes` that had gone out, the bytes that waited
-- and all of `bytes` once more have been written, in this order.
pub on_write_error-resends :
    (s : Session) (bytes : List ℕ) (rest : List Task) (n : ℕ)
    → IsSending s
    → s.is_open ≡ true
    → s.writing ≡ some bytes
    → is_nil bytes ≡ false
    → is_nil s.send_buffer ≡ false
    → s.posted ≡ flush ∷ rest
    → (t u v w : Session) × (step s (fails_to_write n) ≡ some t)
      × (step t runs ≡ some u)
      × (step u writes ≡ some v)
      × (step v writes ≡ some w)
      × (w.written ≡ ((s.written ++ take n bytes) ++ s.send_buffer) ++ bytes)
unfolding step end_write on_written
on_write_error-resends s bytes rest n v o w b more p =
    let held : s.cache_buffer ≡ bytes = cache v.busy in
    (
      on_write_error s (take n bytes),
      resumed s (take n bytes) rest,
      _,
      _,
      ap (λ q. break_write s q n) w,
      on_write_error-runs s (take n bytes) rest o p more,
      resumed-writes s (take n bytes) rest o (ap is_nil held ∙ b),
      refl,
      ap (λ l. ((s.written ++ take n bytes) ++ s.send_buffer) ++ l) held,
    )
  where
    cache : Busy s → s.cache_buffer ≡ bytes
    cache (inl (i, h)) = cc (h, w)
    cache (inr (i, h, c)) = cc (h, w)
