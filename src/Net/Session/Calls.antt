-- ===== src/Net/Session/Calls.antt =====
-- Calls of `send` on a session of engine/net/tcp_session.h, between the turns of its context.
use mathlib.Core.List.{flatten}
use cxxprogram.Prelude.{
  List, [], ap, append-nil, append_assoc, none, refl, some, sym, ℕ, ◌++◌, ◌∙◌, ◌∷◌, ◌≡◌,
}
use cxxprogram.Net.Session.{Session, Task, flush, append_and_flush, shut, runs, writes, step, send}
use cxxprogram.Net.Session.Sending.Buffers.{stream}
use cxxprogram.Net.Session.Sending.Handlers.{send-Steps}
use cxxprogram.Net.Session.Draining.{
  IsAlive, ran-Turned, wrote-Turned, rests, step-none, promised, posted_bytes, has_shut,
}

has_shut-flush : (ts : List Task) → has_shut (ts ++ flush ∷ []) ≡ has_shut ts
has_shut-flush [] = refl
has_shut-flush (flush ∷ ts) = has_shut-flush ts
has_shut-flush (append_and_flush bytes ∷ ts) = has_shut-flush ts
has_shut-flush (shut ∷ ts) = refl

posted_bytes-flush : (ts : List Task) → posted_bytes (ts ++ flush ∷ []) ≡ posted_bytes ts
posted_bytes-flush [] = refl
posted_bytes-flush (flush ∷ ts) = posted_bytes-flush ts
posted_bytes-flush (append_and_flush bytes ∷ ts) = ap (◌++◌ bytes) (posted_bytes-flush ts)
posted_bytes-flush (shut ∷ ts) = posted_bytes-flush ts

-- `send` promises its bytes behind the others, when no bytes are in posted handlers.
pub send-promised :
    (s : Session) (bytes : List ℕ)
    → IsAlive s
    → posted_bytes s.posted ≡ []
    → IsAlive (send s bytes)
      × (posted_bytes (send s bytes).posted ≡ [])
      × (promised (send s bytes) ≡ promised s ++ bytes)
unfolding send
send-promised s bytes v p =
    let (kept, e) = send-Steps s bytes v.sending in
    let none_more : posted_bytes (s.posted ++ flush ∷ []) ≡ [] = posted_bytes-flush s.posted ∙ p in
    (
      record { sending = kept; opened = v.opened; unshut = has_shut-flush s.posted ∙ v.unshut },
      none_more,
      ap (◌++◌ (stream (send s bytes))) none_more
          ∙ append-nil (stream (send s bytes))
          ∙ e
          ∙ ap (λ l. l ++ bytes) (sym (append-nil (stream s)) ∙ ap (◌++◌ (stream s)) (sym p)),
    )

-- The calls `send(b)` of a history, with turns of the context between them.
pub data Calls : Session → List (List ℕ) → Session → Type 0 where
  none_left : {s : Session} → Calls s [] s
  sent :
      {s t : Session} {bs : List (List ℕ)} (b : List ℕ) → Calls (send s b) bs t → Calls s (b ∷ bs) t
  ran : {s t u : Session} {bs : List (List ℕ)} → step s runs ≡ some u → Calls u bs t → Calls s bs t
  wrote :
      {s t u : Session} {bs : List (List ℕ)} → step s writes ≡ some u → Calls u bs t → Calls s bs t

Calls-promised :
    {s t : Session} {bs : List (List ℕ)}
    → IsAlive s
    → posted_bytes s.posted ≡ []
    → Calls s bs t
    → IsAlive t × (promised t ≡ promised s ++ flatten bs)
unfolding flatten step
Calls-promised {s = s} v z none_left = (v, sym (append-nil (promised s)))
Calls-promised {s = s} v z (sent {bs = bs} b calls) =
    let (w, y, e) = send-promised s b v z in
    let (u, f) = Calls-promised w y calls in
    (u, f ∙ ap (λ l. l ++ flatten bs) e ∙ append_assoc (promised s) b (flatten bs))
Calls-promised {s = s} v z (ran {bs = bs} e calls) =
    let (w, p, _, y) = ran-Turned s s.posted v refl e in
    let (u, f) = Calls-promised w (y z) calls in (u, f ∙ ap (λ l. l ++ flatten bs) p)
Calls-promised {s = s} v z (wrote {bs = bs} e calls) =
    let (w, p, _, y) = wrote-Turned s s.writing v refl e in
    let (u, f) = Calls-promised w (y z) calls in (u, f ∙ ap (λ l. l ++ flatten bs) p)

-- An open session that holds no bytes, and is not closed: when neither a handler nor the end of a
-- write is left, the bytes of all calls have been written, in their order, however the calls and the
-- turns were mixed.
pub Calls-written :
    {s t : Session} {bs : List (List ℕ)}
    → IsAlive s
    → s.posted ≡ []
    → stream s ≡ []
    → Calls s bs t
    → step t runs ≡ none
    → step t writes ≡ none
    → t.written ≡ flatten bs
Calls-written {s = s} {t = t} {bs = bs} v p y calls r w =
    let (alive, e) = Calls-promised v (ap posted_bytes p) calls in
    let (posted, writing) = step-none t r w in
    let nothing : promised s ≡ [] = ap (λ l. l ++ posted_bytes s.posted) y ∙ ap posted_bytes p in
    rests t alive posted writing ∙ e ∙ ap (λ l. l ++ flatten bs) nothing
