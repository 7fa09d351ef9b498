-- ===== src/Net/Session/Sending/Handlers.antt =====
-- The handlers of a session of engine/net/tcp_session.h, and the bytes that they keep in their order.
use cxxprogram.Prelude.{
  Bool, Bool-cases, List, Option, [], ap, append-nil, append_assoc, arith, false, inl, inr, none,
  refl, some, subst, sym, true, ℕ, ◌++◌, ◌+◌, ◌∙◌, ◌∷◌, ◌≡◌, ◌⊎◌,
}
use cxxprogram.Net.TcpParser.{ParserCode}
use cxxprogram.Net.Session.{
  Session, Task, flush, append_and_flush, shut, Event, sends, sends_shared, runs, writes,
  fails_to_write, reads, fails_to_read, post, run_shut, send, send_shared, is_nil, do_send,
  run_task, on_written, on_read, run_head, end_write, end_read, break_read, is_refusal,
}
use cxxprogram.Net.Session.Sending.Buffers.{
  under_way, stream, has_flush, IsSending, has_flush-append, has_flush_last, nil_of_is_nil,
  do_send-Keeps, Busy, run_flush-Keeps,
}

-- The bytes that a handler, and an event, add to the stream.
abbrev pub task_gain : List Task → List ℕ
task_gain [] = []
task_gain (flush ∷ ts) = []
task_gain (append_and_flush bytes ∷ ts) = bytes
task_gain (shut ∷ ts) = []

abbrev pub gain : Session → Event → List ℕ
gain s (sends bytes) = bytes
gain s (sends_shared bytes) = []
gain s runs = task_gain s.posted
gain s writes = []
gain s (fails_to_write n) = []
gain s (reads code) = []
gain s fails_to_read = []

abbrev pub IsWriteError : Event → Type 0
IsWriteError (fails_to_write n) = Unit {0}
IsWriteError e = ⊥

-- What one event does that is no failed write.
abbrev pub Steps : Session → List ℕ → Session → Type 0
Steps s bytes t = IsSending t × (stream t ≡ stream s ++ bytes)

stream-append :
    (s : Session) (bytes : List ℕ)
    → stream (record s { send_buffer = s.send_buffer ++ bytes }) ≡ stream s ++ bytes
stream-append s bytes = simp append_assoc

pub run_task-Steps :
    (s : Session) (t : Task) (ts : List Task)
    → Busy s
    → Steps s (task_gain (t ∷ ts)) (run_task (record s { posted = ts }) t)
unfolding run_task run_shut
run_task-Steps s flush ts b =
    let (w, e) = run_flush-Keeps (record s { posted = ts }) b in
    (w, e ∙ sym (append-nil (stream s)))
run_task-Steps s (append_and_flush bytes) ts b =
    let (w, e) =
      run_flush-Keeps (record s { posted = ts; send_buffer = s.send_buffer ++ bytes }) b in
    (w, e ∙ stream-append s bytes)
run_task-Steps s shut ts b = elim (Bool-cases s.is_open) [
  | inl e ↦
      let closed = record s { posted = ts; is_open = false; closes = s.closes + 1 } in
      let run : run_shut (record s { posted = ts }) ≡ closed = ground arith in
      subst (Steps s []) (sym run)
        (record { busy = b; awake = inr (inr (inr refl)) }, sym (append-nil (stream s)))
  | inr e ↦
      let kept = record s { posted = ts } in
      let run : run_shut kept ≡ kept = ground arith in
      subst (Steps s []) (sym run)
        (record { busy = b; awake = inr (inr (inr e)) }, sym (append-nil (stream s)))
]

pub send-Steps : (s : Session) (bytes : List ℕ) → IsSending s → Steps s bytes (send s bytes)
unfolding send
send-Steps s bytes v = (
  record { busy = v.busy; awake = inr (inr (inl (has_flush_last s.posted))) },
  stream-append s bytes,
)

-- A handler that is posted behind the others.
post-IsSending : (s : Session) (t : Task) → IsSending s → IsSending (post s t)
post-IsSending s t v = record { busy = v.busy; awake = go v.awake }
  where
    go :
        (s.send_buffer ≡ [])
          ⊎ (s.sending ≡ true)
          ⊎ (has_flush s.posted ≡ true)
          ⊎ (s.is_open ≡ false)
        → (s.send_buffer ≡ [])
          ⊎ (s.sending ≡ true)
          ⊎ (has_flush (s.posted ++ t ∷ []) ≡ true)
          ⊎ (s.is_open ≡ false)
    go (inl h) = inl h
    go (inr (inl h)) = inr (inl h)
    go (inr (inr (inl h))) = inr (inr (inl (has_flush-append s.posted t h)))
    go (inr (inr (inr h))) = inr (inr (inr h))

-- The state after a write has ended well, before the next one.
abbrev pub landed : Session → List ℕ → Session
landed s bytes = record s {
  sending = false;
  writing = none;
  written = s.written ++ bytes;
  cache_buffer = [];
}

pub on_written-Steps :
    (s : Session) (bytes : List ℕ)
    → IsSending s
    → s.writing ≡ some bytes
    → Steps s [] (on_written s bytes)
unfolding on_written
on_written-Steps s bytes v w =
    let same : stream (landed s bytes) ≡ stream s =
      append_assoc s.written bytes s.send_buffer
      ∙ ap (λ o. s.written ++ (under_way o ++ s.send_buffer)) (sym w) in
    elim (Bool-cases (is_nil s.send_buffer)) [
      | inl n ↦
          let run : on_written s bytes ≡ landed s bytes = ground arith in
          subst (Steps s []) (sym run) (
            record { busy = inr (refl, refl, refl); awake = inl (nil_of_is_nil s.send_buffer n) },
            same ∙ sym (append-nil (stream s)),
          )
      | inr n ↦
          let run : on_written s bytes ≡ do_send (landed s bytes) = ground arith in
          let (kept, e) = do_send-Keeps (landed s bytes) refl refl refl in
          subst (Steps s []) (sym run) (kept, e ∙ same ∙ sym (append-nil (stream s)))
    ]

pub some_eq : (s t : Session) → some s ≡ some t → s ≡ t
some_eq s t e = λ i. elim (e i) as (λ o. Session) [ none ↦ s | some r ↦ r ]

pub run_head-Steps :
    (s : Session) (ts : List Task) {t : Session}
    → IsSending s
    → run_head s ts ≡ some t
    → Steps s (task_gain ts) t
unfolding run_head
run_head-Steps s [] v e = cc
run_head-Steps s (x ∷ ts) v e =
    subst (Steps s (task_gain (x ∷ ts))) (some_eq _ _ e) (run_task-Steps s x ts v.busy)

pub end_write-Steps :
    (s : Session) (o : Option (List ℕ)) {t : Session}
    → IsSending s
    → s.writing ≡ o
    → end_write s o ≡ some t
    → Steps s [] t
unfolding end_write
end_write-Steps s none v w e = cc
end_write-Steps s (some bytes) v w e =
    subst (Steps s []) (some_eq _ _ e) (on_written-Steps s bytes v w)

-- Neither a read nor its end touches what is sent.
same-Steps : (s t : Session) → IsSending t → stream t ≡ stream s → Steps s [] t
same-Steps s t v e = (v, e ∙ sym (append-nil (stream s)))

on_read-Steps : (s : Session) (code : ParserCode) → IsSending s → Steps s [] (on_read s code)
unfolding on_read
on_read-Steps s code v = go (is_refusal code) refl
  where
    go : (b : Bool) → is_refusal code ≡ b → Steps s [] (on_read s code)
    go true e =
        let run : on_read s code ≡ record (post s shut) { reading = true } = ground arith in
        let w = post-IsSending s shut v in
        subst (Steps s []) (sym run)
          (same-Steps s _ (record { busy = w.busy; awake = w.awake }) refl)
    go false e =
        let run : on_read s code ≡ record s { reading = true } = ground arith in
        subst (Steps s []) (sym run)
          (same-Steps s _ (record { busy = v.busy; awake = v.awake }) refl)

pub end_read-Steps :
    (s : Session) (b : Bool) (code : ParserCode) {t : Session}
    → IsSending s
    → end_read s b code ≡ some t
    → Steps s [] t
unfolding end_read
end_read-Steps s false code v e = cc
end_read-Steps s true code v e = subst (Steps s []) (some_eq _ _ e) (on_read-Steps s code v)

pub break_read-Steps :
    (s : Session) (b : Bool) {t : Session} → IsSending s → break_read s b ≡ some t → Steps s [] t
unfolding break_read
break_read-Steps s false v e = cc
break_read-Steps s true v e =
    let w = post-IsSending s shut v in
    subst (Steps s []) (some_eq _ _ e)
      (same-Steps s _ (record { busy = w.busy; awake = w.awake }) refl)

pub send_shared-Steps :
    (s : Session) (bytes : List ℕ) → IsSending s → Steps s [] (send_shared s bytes)
unfolding send_shared
send_shared-Steps s bytes v = same-Steps s _ (post-IsSending s (append_and_flush bytes) v) refl
