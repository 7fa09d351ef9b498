-- ===== src/Net/Session/Sending/Chunks.antt =====
-- What the calls of `send` of engine/net/tcp_session.h bring, and when it joins the bytes to write:
-- `send(data, length)` adds its bytes at the call, and `send(buffer)` posts a handler that adds them
-- later, so that calls in between are ahead of it.
use cxxprogram.Prelude.{
  Bool, if◌then◌else◌, List, Option, [], ap, append-nil, append_assoc, arith, false, none, refl,
  some, sym, true, ℕ, ◌++◌, ◌∙◌, ◌∷◌, ◌≡◌,
}
use cxxprogram.Net.TcpParser.{ParserCode}
use cxxprogram.Net.Session.{
  Session, Task, flush, append_and_flush, shut, Event, sends, sends_shared, runs, writes,
  fails_to_write, reads, fails_to_read, step, send, send_shared, do_send, run_flush, run_shut,
  run_task, on_written, on_read, on_read_error, do_recv, close, is_refusal, run_head, end_write,
  end_read, break_read, write_cache,
}
use cxxprogram.Net.Session.Sending.Handlers.{gain, task_gain, IsWriteError, some_eq}

-- The bytes of a call of `send(data, length)`, and of one of `send(buffer)`.
pub data Chunk : Type 0 where
  copied : List ℕ → Chunk
  shared : List ℕ → Chunk

-- The call that an event is.
abbrev pub called : Event → List Chunk
called (sends bytes) = copied bytes ∷ []
called (sends_shared bytes) = shared bytes ∷ []
called runs = []
called writes = []
called (fails_to_write n) = []
called (reads code) = []
called fails_to_read = []

-- What joins the bytes to write, in a handler and in an event.
abbrev pub task_joins : List Task → List Chunk
task_joins [] = []
task_joins (flush ∷ ts) = []
task_joins (append_and_flush bytes ∷ ts) = shared bytes ∷ []
task_joins (shut ∷ ts) = []

abbrev pub joins : Session → Event → List Chunk
joins s (sends bytes) = copied bytes ∷ []
joins s (sends_shared bytes) = []
joins s runs = task_joins s.posted
joins s writes = []
joins s (fails_to_write n) = []
joins s (reads code) = []
joins s fails_to_read = []

-- The bytes of chunks; those of the calls of one kind, each by itself; and those that handlers bring.
abbrev pub chunk_bytes : List Chunk → List ℕ
chunk_bytes [] = []
chunk_bytes (copied bytes ∷ cs) = bytes ++ chunk_bytes cs
chunk_bytes (shared bytes ∷ cs) = bytes ++ chunk_bytes cs

abbrev pub all_copied : List Chunk → List (List ℕ)
all_copied [] = []
all_copied (copied bytes ∷ cs) = bytes ∷ all_copied cs
all_copied (shared bytes ∷ cs) = all_copied cs

abbrev pub all_shared : List Chunk → List (List ℕ)
all_shared [] = []
all_shared (copied bytes ∷ cs) = all_shared cs
all_shared (shared bytes ∷ cs) = bytes ∷ all_shared cs

abbrev pub to_come : List Task → List (List ℕ)
to_come [] = []
to_come (flush ∷ ts) = to_come ts
to_come (append_and_flush bytes ∷ ts) = bytes ∷ to_come ts
to_come (shut ∷ ts) = to_come ts

pub chunk_bytes-append :
    (cs ds : List Chunk) → chunk_bytes (cs ++ ds) ≡ chunk_bytes cs ++ chunk_bytes ds
chunk_bytes-append [] ds = refl
chunk_bytes-append (copied b ∷ cs) ds =
    ap (λ l. b ++ l) (chunk_bytes-append cs ds) ∙ sym (append_assoc b _ _)
chunk_bytes-append (shared b ∷ cs) ds =
    ap (λ l. b ++ l) (chunk_bytes-append cs ds) ∙ sym (append_assoc b _ _)

pub all_copied-append :
    (cs ds : List Chunk) → all_copied (cs ++ ds) ≡ all_copied cs ++ all_copied ds
all_copied-append [] ds = refl
all_copied-append (copied b ∷ cs) ds = ap (λ l. b ∷ l) (all_copied-append cs ds)
all_copied-append (shared b ∷ cs) ds = all_copied-append cs ds

pub all_shared-append :
    (cs ds : List Chunk) → all_shared (cs ++ ds) ≡ all_shared cs ++ all_shared ds
all_shared-append [] ds = refl
all_shared-append (copied b ∷ cs) ds = all_shared-append cs ds
all_shared-append (shared b ∷ cs) ds = ap (λ l. b ∷ l) (all_shared-append cs ds)

to_come-append : (ts us : List Task) → to_come (ts ++ us) ≡ to_come ts ++ to_come us
to_come-append [] us = refl
to_come-append (flush ∷ ts) us = to_come-append ts us
to_come-append (append_and_flush b ∷ ts) us = ap (λ l. b ∷ l) (to_come-append ts us)
to_come-append (shut ∷ ts) us = to_come-append ts us

task_gain-joins : (ts : List Task) → task_gain ts ≡ chunk_bytes (task_joins ts)
task_gain-joins [] = refl
task_gain-joins (flush ∷ ts) = refl
task_gain-joins (append_and_flush bytes ∷ ts) = sym (append-nil bytes)
task_gain-joins (shut ∷ ts) = refl

pub gain-joins : (s : Session) (e : Event) → gain s e ≡ chunk_bytes (joins s e)
gain-joins s (sends bytes) = sym (append-nil bytes)
gain-joins s (sends_shared bytes) = refl
gain-joins s runs = task_gain-joins s.posted
gain-joins s writes = refl
gain-joins s (fails_to_write n) = refl
gain-joins s (reads code) = refl
gain-joins s fails_to_read = refl

task_joins-copied : (ts : List Task) → all_copied (task_joins ts) ≡ []
task_joins-copied [] = refl
task_joins-copied (flush ∷ ts) = refl
task_joins-copied (append_and_flush bytes ∷ ts) = refl
task_joins-copied (shut ∷ ts) = refl

-- The bytes of `send(data, length)` join at the call.
pub joins-called : (s : Session) (e : Event) → all_copied (joins s e) ≡ all_copied (called e)
joins-called s (sends bytes) = refl
joins-called s (sends_shared bytes) = refl
joins-called s runs = task_joins-copied s.posted
joins-called s writes = refl
joins-called s (fails_to_write n) = refl
joins-called s (reads code) = refl
joins-called s fails_to_read = refl

-- A step of which the handlers of `send(buffer)` go in and out in turn.
abbrev pub Queues : Session → Event → Session → Type 0
Queues s e t =
    all_shared (joins s e) ++ to_come t.posted ≡ to_come s.posted ++ all_shared (called e)

posted_eq : {s t : Session} → some s ≡ some t → s.posted ≡ t.posted
posted_eq {s} {t} e = ap (λ (u : Session). u.posted) (some_eq s t e)

run_flush-posted : (s : Session) → (run_flush s).posted ≡ s.posted
unfolding run_flush do_send write_cache
run_flush-posted s = ground arith

on_written-posted : (s : Session) (bytes : List ℕ) → (on_written s bytes).posted ≡ s.posted
unfolding on_written do_send write_cache
on_written-posted s bytes = ground arith

run_head-Queues :
    (s : Session) (ts : List Task) {t : Session}
    → run_head s ts ≡ some t
    → all_shared (task_joins ts) ++ to_come t.posted ≡ to_come ts
unfolding run_head run_task run_shut
run_head-Queues s [] e = cc
run_head-Queues s (flush ∷ ts) e =
    ap to_come (sym (posted_eq e) ∙ run_flush-posted (record s { posted = ts }))
run_head-Queues s (append_and_flush b ∷ ts) e =
    ap (λ us. b ∷ to_come us)
      (sym (posted_eq e)
        ∙ run_flush-posted (record s { posted = ts; send_buffer = s.send_buffer ++ b }))
run_head-Queues s (shut ∷ ts) e =
    ap to_come (sym (posted_eq e) ∙ shut_posted (record s { posted = ts }))
  where
    shut_posted : (r : Session) → (run_shut r).posted ≡ r.posted
    shut_posted r = ground arith

end_write-Queues :
    (s : Session) (o : Option (List ℕ)) {t : Session}
    → end_write s o ≡ some t
    → to_come t.posted ≡ to_come s.posted
unfolding end_write
end_write-Queues s none e = cc
end_write-Queues s (some bytes) e = ap to_come (sym (posted_eq e) ∙ on_written-posted s bytes)

shut_behind : (s : Session) → to_come (s.posted ++ shut ∷ []) ≡ to_come s.posted
shut_behind s = to_come-append s.posted (shut ∷ []) ∙ append-nil (to_come s.posted)

end_read-Queues :
    (s : Session) (b : Bool) (code : ParserCode) {t : Session}
    → end_read s b code ≡ some t
    → to_come t.posted ≡ to_come s.posted
unfolding end_read on_read do_recv close
end_read-Queues s false code e = cc
end_read-Queues s true code e = ap to_come (sym (posted_eq e)) ∙ go (is_refusal code)
  where
    go : (b : Bool) → to_come (do_recv (if b then close s else s)).posted ≡ to_come s.posted
    go true = shut_behind s
    go false = refl

break_read-Queues :
    (s : Session) (b : Bool) {t : Session}
    → break_read s b ≡ some t
    → to_come t.posted ≡ to_come s.posted
unfolding break_read on_read_error close
break_read-Queues s false e = cc
break_read-Queues s true e = ap to_come (sym (posted_eq e)) ∙ shut_behind s

pub step-Queues :
    (s : Session) (e : Event) {t : Session} → ¬ IsWriteError e → step s e ≡ some t → Queues s e t
unfolding step send send_shared
step-Queues s (sends bytes) n e =
    ap to_come (sym (posted_eq e)) ∙ to_come-append s.posted (flush ∷ [])
step-Queues s (sends_shared bytes) n e =
    ap to_come (sym (posted_eq e)) ∙ to_come-append s.posted (append_and_flush bytes ∷ [])
step-Queues s runs n e = run_head-Queues s s.posted e ∙ sym (append-nil (to_come s.posted))
step-Queues s writes n e = end_write-Queues s s.writing e ∙ sym (append-nil (to_come s.posted))
step-Queues s (fails_to_write k) n e = absurd (n tt)
step-Queues s (reads code) n e =
    end_read-Queues s s.reading code e ∙ sym (append-nil (to_come s.posted))
step-Queues s fails_to_read n e =
    break_read-Queues s s.reading e ∙ sym (append-nil (to_come s.posted))
