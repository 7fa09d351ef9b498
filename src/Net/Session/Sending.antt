-- ===== src/Net/Session/Sending.antt =====
-- The bytes that a session of engine/net/tcp_session.h sends: an invariant, and what it means.
pub mod Buffers
pub mod Handlers
pub mod Chunks
use cxxprogram.Prelude.{
  List, [], ap, append-nil, append_assoc, false, inl, inr, refl, some, subst, sym, true, ℕ, ◌++◌,
  ◌∙◌, ◌≡◌, ◌⊎◌,
}
use cxxprogram.Net.Session.{
  Session, Event, sends, sends_shared, runs, writes, fails_to_write, reads, fails_to_read, step,
  fresh,
}
use cxxprogram.Net.Session.Sending.Buffers.{under_way, stream, has_flush, IsSending, Busy}
use cxxprogram.Net.Session.Sending.Chunks.{
  Chunk, all_copied, all_copied-append, all_shared, all_shared-append, called, chunk_bytes,
  chunk_bytes-append, gain-joins, joins, joins-called, step-Queues, to_come,
}
use cxxprogram.Net.Session.Sending.Handlers.{
  gain, IsWriteError, Steps, send-Steps, some_eq, run_head-Steps, end_write-Steps, end_read-Steps,
  break_read-Steps, send_shared-Steps,
}

-- Every event that can happen, but a failed write, keeps the invariant, and the bytes that were
-- given to `send` stay in their order: those that the event brings come last.
pub step-IsSending :
    (s : Session) (e : Event) {t : Session}
    → IsSending s
    → ¬ IsWriteError e
    → step s e ≡ some t
    → IsSending t × (stream t ≡ stream s ++ gain s e)
unfolding step
step-IsSending s (sends bytes) v n e = subst (Steps s bytes) (some_eq _ _ e) (send-Steps s bytes v)
step-IsSending s (sends_shared bytes) v n e =
    subst (Steps s []) (some_eq _ _ e) (send_shared-Steps s bytes v)
step-IsSending s runs v n e = run_head-Steps s s.posted v e
step-IsSending s writes v n e = end_write-Steps s s.writing v refl e
step-IsSending s (fails_to_write k) v n e = absurd (n tt)
step-IsSending s (reads code) v n e = end_read-Steps s s.reading code v e
step-IsSending s fails_to_read v n e = break_read-Steps s s.reading v e

-- A history of events without a failed write: the calls of `send` in it, and what joined the bytes to
-- write, each in its order.
pub data History : Session → List Chunk → List Chunk → Session → Type 0 where
  here : {s t : Session} → s ≡ t → History s [] [] t
  next :
      {s t u : Session} {calls puts : List Chunk} (e : Event)
      → step s e ≡ some t
      → ¬ IsWriteError e
      → History t calls puts u
      → History s (called e ++ calls) (joins s e ++ puts) u

History-stream :
    {s t : Session} {calls puts : List Chunk}
    → IsSending s
    → History s calls puts t
    → IsSending t × (stream t ≡ stream s ++ chunk_bytes puts)
History-stream {s} v (here e) = subst (Steps s []) e (v, sym (append-nil (stream s)))
History-stream {s} v (next {t = t} {puts = puts} e run ok h) =
    let (w, a) = step-IsSending s e v ok run in
    let (z, b) = History-stream w h in
    (
      z,
      b
          ∙ ap (λ l. l ++ chunk_bytes puts) (a ∙ ap (◌++◌ (stream s)) (gain-joins s e))
          ∙ append_assoc (stream s) (chunk_bytes (joins s e)) (chunk_bytes puts)
          ∙ ap (◌++◌ (stream s)) (sym (chunk_bytes-append (joins s e) puts)),
    )

History-copied :
    {s t : Session} {calls puts : List Chunk}
    → History s calls puts t
    → all_copied puts ≡ all_copied calls
History-copied (here e) = refl
History-copied (next {s = s} {calls = calls} {puts = puts} e run ok h) =
    all_copied-append (joins s e) puts
    ∙ ap (λ l. l ++ all_copied puts) (joins-called s e)
    ∙ ap (◌++◌ (all_copied (called e))) (History-copied h)
    ∙ sym (all_copied-append (called e) calls)

History-shared :
    {s t : Session} {calls puts : List Chunk}
    → History s calls puts t
    → all_shared puts ++ to_come t.posted ≡ to_come s.posted ++ all_shared calls
History-shared {s} (here e) =
    ap (λ (r : Session). to_come r.posted) (sym e) ∙ sym (append-nil (to_come s.posted))
History-shared {t = u} (next {s = s} {t = t} {calls = calls} {puts = puts} e run ok h) =
    ap (λ l. l ++ to_come u.posted) (all_shared-append (joins s e) puts)
    ∙ append_assoc (all_shared (joins s e)) (all_shared puts) (to_come u.posted)
    ∙ ap (◌++◌ (all_shared (joins s e))) (History-shared h)
    ∙ sym (append_assoc (all_shared (joins s e)) (to_come t.posted) (all_shared calls))
    ∙ ap (λ l. l ++ all_shared calls) (step-Queues s e ok run)
    ∙ append_assoc (to_come s.posted) (all_shared (called e)) (all_shared calls)
    ∙ ap (◌++◌ (to_come s.posted)) (sym (all_shared-append (called e) calls))

fresh-IsSending : IsSending fresh
unfolding fresh
fresh-IsSending = record { busy = inr (refl, refl, refl); awake = inl refl }

-- In any history without a failed write, from a state that keeps the invariant and holds no bytes,
-- where the bytes of a `send(data, length)` count from the call and those of a `send(buffer)` from
-- when the handler that it posts runs, so that later calls may overtake them: the bytes written are a
-- beginning of those that count, in this order; of these, the ones of `send(data, length)` are the
-- ones that were given to it, call by call in the order of the calls; the ones of `send(buffer)`, and
-- then those of its handlers that are still posted, are the ones that were posted at first and then
-- the ones that were given to it, in the order of the calls; and all that count are written unless a
-- handler that sends is posted, a write is under way or the socket is closed.
pub History-written :
    {s t : Session} {calls puts : List Chunk}
    → IsSending s
    → stream s ≡ []
    → History s calls puts t
    → ((rest : List ℕ) × (t.written ++ rest ≡ chunk_bytes puts))
      × (all_copied puts ≡ all_copied calls)
      × (all_shared puts ++ to_come t.posted ≡ to_come s.posted ++ all_shared calls)
      × ((t.written ≡ chunk_bytes puts)
          ⊎ (has_flush t.posted ≡ true)
          ⊎ (t.sending ≡ true)
          ⊎ (t.is_open ≡ false))
History-written {s} {t} {puts = puts} v z h =
    let (w, e) = History-stream v h in
    let whole : stream t ≡ chunk_bytes puts = e ∙ ap (λ l. l ++ chunk_bytes puts) z in
    (
      (under_way t.writing ++ t.send_buffer, whole),
      History-copied h,
      History-shared h,
      last w whole w.busy w.awake,
    )
  where
    last :
        IsSending t
        → stream t ≡ chunk_bytes puts
        → Busy t
        → (t.send_buffer ≡ [])
          ⊎ (t.sending ≡ true)
          ⊎ (has_flush t.posted ≡ true)
          ⊎ (t.is_open ≡ false)
        → (t.written ≡ chunk_bytes puts)
          ⊎ (has_flush t.posted ≡ true)
          ⊎ (t.sending ≡ true)
          ⊎ (t.is_open ≡ false)
    last w e (inl (i, o)) a = inr (inr (inl i))
    last w e (inr (i, o, c)) (inl n) = inl (
        sym (append-nil t.written)
        ∙ ap (◌++◌ t.written) (sym (ap (λ p. under_way p ++ t.send_buffer) o ∙ n))
        ∙ e)
    last w e (inr b) (inr (inl h)) = inr (inr (inl h))
    last w e (inr b) (inr (inr (inl h))) = inr (inl h)
    last w e (inr b) (inr (inr (inr h))) = inr (inr (inr h))
