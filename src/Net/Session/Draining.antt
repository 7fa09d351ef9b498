-- ===== src/Net/Session/Draining.antt =====
-- What a session of engine/net/tcp_session.h still has to do when nothing new comes: the handlers
-- that are posted, and the ends of its writes.
use cxxprogram.Prelude.{
  Bool, Bool-cases, List, Option, [], ap, append-nil, append_assoc, arith, false, if◌then◌else◌,
  inl, inr, none, refl, some, subst, suc, sym, true, ℕ, ◌*◌, ◌++◌, ◌+◌, ◌<◌, ◌∙◌, ◌∷◌, ◌≡◌, ◌≤◌,
  ◌⊎◌,
}
use cxxprogram.Net.Session.{
  Session, Task, flush, append_and_flush, shut, runs, writes, is_nil, do_send, run_flush, run_task,
  on_written, step, run_head, end_write,
}
use cxxprogram.Net.Session.Sending.Buffers.{
  IsSending, Busy, stream, under_way, do_send-closed, do_send-nothing, do_send-something,
  run_flush-busy, run_flush-free, has_flush,
}
use cxxprogram.Net.Session.Sending.Handlers.{
  task_gain, run_task-Steps, on_written-Steps, landed, some_eq,
}

-- The bytes that the posted handlers still bring, and whether `close` is among them.
abbrev pub posted_bytes : List Task → List ℕ
posted_bytes [] = []
posted_bytes (t ∷ ts) = task_gain (t ∷ ts) ++ posted_bytes ts

abbrev pub has_shut : List Task → Bool
has_shut [] = false
has_shut (flush ∷ ts) = has_shut ts
has_shut (append_and_flush bytes ∷ ts) = has_shut ts
has_shut (shut ∷ ts) = true

abbrev is_writing : Option (List ℕ) → ℕ
is_writing none = 0
is_writing (some bytes) = 1

abbrev is_waiting : List ℕ → ℕ
is_waiting bytes = if is_nil bytes then 0 else 1

abbrev load : Session → ℕ
load s = is_writing s.writing + is_waiting s.send_buffer

abbrev tasks : List Task → ℕ
tasks [] = 0
tasks (t ∷ ts) = suc (tasks ts)

-- A bound on the steps that are left: a posted handler can begin a write, and a write a second one.
abbrev pub work : Session → ℕ
work s = 2 * tasks s.posted + load s

-- What the sending keeps as it is.
abbrev Same : ℕ → Session → Session → Type 0
Same n s t = (t.posted ≡ s.posted) × (t.is_open ≡ s.is_open) × (load t ≤ n)

is_waiting_le : (bytes : List ℕ) → is_waiting bytes ≤ 1
is_waiting_le [] = omega arith
is_waiting_le (b ∷ bytes) = omega arith

do_send-Same : (s : Session) → s.writing ≡ none → s.cache_buffer ≡ [] → Same 1 s (do_send s)
do_send-Same s w c = elim (Bool-cases s.is_open) [
  | inr closed ↦
      subst (Same 1 s) (sym (do_send-closed s closed))
        (refl, refl, omega (arith, ap is_writing w, is_waiting_le s.send_buffer))
  | inl is_open ↦ elim (Bool-cases (is_nil s.send_buffer)) [
    | inl n ↦
        subst (Same 1 s) (sym (do_send-nothing s is_open n))
          (refl, refl, omega (arith, ap is_writing w, is_waiting_le s.cache_buffer))
    | inr n ↦
        subst (Same 1 s) (sym (do_send-something s is_open n))
          (refl, refl, omega (arith, ap is_waiting c))
  ]
]

is_writing-Busy : (s : Session) → Busy s → s.sending ≡ true → is_writing s.writing ≡ 1
is_writing-Busy s (inl (i, w)) e = ap is_writing w
is_writing-Busy s (inr (i, w, c)) e = cc

-- One more than the write that may be under way.
run_flush-Same : (s : Session) → Busy s → Same (is_writing s.writing + 1) s (run_flush s)
run_flush-Same s (inl (i, w)) =
    subst (Same (is_writing s.writing + 1) s) (sym (run_flush-busy s i))
      (refl, refl, omega (arith, is_waiting_le s.send_buffer))
run_flush-Same s (inr (i, w, c)) =
    let (posted, opened, l) = do_send-Same s w c in
    subst (Same (is_writing s.writing + 1) s) (sym (run_flush-free s i))
      (posted, opened, omega (arith, l))

run_task-Same :
    (s : Session) (t : Task) (ts : List Task)
    → Busy s
    → has_shut (t ∷ ts) ≡ false
    → Same
        (is_writing s.writing + 1)
        (record s { posted = ts })
        (run_task (record s { posted = ts }) t)
unfolding run_task
run_task-Same s flush ts b h = run_flush-Same (record s { posted = ts }) b
run_task-Same s (append_and_flush bytes) ts b h =
    run_flush-Same (record s { posted = ts; send_buffer = s.send_buffer ++ bytes }) b
run_task-Same s shut ts b h = cc

on_written-Same :
    (s : Session) (bytes : List ℕ)
    → s.writing ≡ some bytes
    → Same (is_waiting s.send_buffer) s (on_written s bytes)
unfolding on_written
on_written-Same s bytes w = elim (Bool-cases (is_nil s.send_buffer)) [
  | inl n ↦
      let run : on_written s bytes ≡ landed s bytes = ground arith in
      subst (Same (is_waiting s.send_buffer) s) (sym run) (refl, refl, omega arith)
  | inr n ↦
      let run : on_written s bytes ≡ do_send (landed s bytes) = ground arith in
      let (posted, opened, l) = do_send-Same (landed s bytes) refl refl in
      subst (Same (is_waiting s.send_buffer) s) (sym run) (posted, opened, ground arith)
]

-- A step of the context on its own: it runs a handler, or a write ends.
pub data Turns (s : Session) : ℕ → Session → Type 0 where
  here : Turns s 0 s
  ran : {n : ℕ} {t u : Session} → Turns s n t → step t runs ≡ some u → Turns s (suc n) u
  wrote : {n : ℕ} {t u : Session} → Turns s n t → step t writes ≡ some u → Turns s (suc n) u

-- What is left to do, and what will have been written.
abbrev pub promised : Session → List ℕ
promised s = stream s ++ posted_bytes s.posted

pub record IsAlive (s : Session) : Type 0 where
  pub sending : IsSending s
  pub opened : s.is_open ≡ true
  pub unshut : has_shut s.posted ≡ false

-- What a turn keeps, and that it leaves less to do.
abbrev pub Turned : Session → Session → Type 0
Turned s t =
    IsAlive t
    × (promised t ≡ promised s)
    × (work t < work s)
    × (posted_bytes s.posted ≡ [] → posted_bytes t.posted ≡ [])

nil_tail : (a b : List ℕ) → a ++ b ≡ [] → b ≡ []
nil_tail [] b e = e
nil_tail (x ∷ a) b e = cc

has_shut_tail : (t : Task) (ts : List Task) → has_shut (t ∷ ts) ≡ false → has_shut ts ≡ false
has_shut_tail flush ts h = h
has_shut_tail (append_and_flush bytes) ts h = h
has_shut_tail shut ts h = cc

pub ran-Turned :
    (s : Session) (ts : List Task) {t : Session}
    → IsAlive s
    → s.posted ≡ ts
    → run_head s ts ≡ some t
    → Turned s t
unfolding run_head
ran-Turned s [] v p e = cc
ran-Turned s (x ∷ ts) v p e =
    let unshut = ap has_shut (sym p) ∙ v.unshut in
    let (kept, bytes) = run_task-Steps s x ts v.sending.busy in
    let (posted, opened, l) = run_task-Same s x ts v.sending.busy unshut in
    subst (Turned s) (some_eq _ _ e) (
      record {
        sending = kept;
        opened = opened ∙ v.opened;
        unshut = ap has_shut posted ∙ has_shut_tail x ts unshut;
      },
      ap (λ l. stream (run_task (record s { posted = ts }) x) ++ posted_bytes l) posted
          ∙ ap (λ b. b ++ posted_bytes ts) bytes
          ∙ append_assoc (stream s) (task_gain (x ∷ ts)) (posted_bytes ts)
          ∙ ap (λ l. stream s ++ posted_bytes l) (sym p),
      omega (arith, ap tasks posted, ap tasks p, l),
      λ z.
          ap posted_bytes posted
          ∙ nil_tail (task_gain (x ∷ ts)) (posted_bytes ts) (ap posted_bytes (sym p) ∙ z),
    )

pub wrote-Turned :
    (s : Session) (o : Option (List ℕ)) {t : Session}
    → IsAlive s
    → s.writing ≡ o
    → end_write s o ≡ some t
    → Turned s t
unfolding end_write
wrote-Turned s none v w e = cc
wrote-Turned s (some written) v w e =
    let (kept, bytes) = on_written-Steps s written v.sending w in
    let (posted, opened, l) = on_written-Same s written w in
    subst (Turned s) (some_eq _ _ e) (
      record { sending = kept; opened = opened ∙ v.opened; unshut = ap has_shut posted ∙ v.unshut },
      ap (λ l. stream (on_written s written) ++ posted_bytes l) posted
          ∙ ap (λ b. b ++ posted_bytes s.posted) (bytes ∙ append-nil (stream s)),
      omega (arith, ap tasks posted, ap is_writing w, l),
      λ z. ap posted_bytes posted ∙ z,
    )

Turns-Turned :
    {s t : Session} {n : ℕ}
    → IsAlive s
    → Turns s n t
    → IsAlive t × (promised t ≡ promised s) × (n + work t ≤ work s)
unfolding step
Turns-Turned v here = (v, refl, omega arith)
Turns-Turned v (ran {t = t} turns e) =
    let (w, p, l) = Turns-Turned v turns in
    let (w', p', l', _) = ran-Turned t t.posted w refl e in (w', p' ∙ p, omega (arith, l, l'))
Turns-Turned v (wrote {t = t} turns e) =
    let (w, p, l) = Turns-Turned v turns in
    let (w', p', l', _) = wrote-Turned t t.writing w refl e in (w', p' ∙ p, omega (arith, l, l'))

-- Neither a handler nor a write is left: all is written.
pub rests : (t : Session) → IsAlive t → t.posted ≡ [] → t.writing ≡ none → t.written ≡ promised t
rests t v p w = go v.sending.busy v.sending.awake
  where
    all : t.send_buffer ≡ [] → t.written ≡ promised t
    all n =
        sym (append-nil t.written)
        ∙ ap (◌++◌ t.written) (sym (ap (λ o. under_way o ++ t.send_buffer) w ∙ n))
        ∙ sym (append-nil (stream t))
        ∙ ap (λ l. stream t ++ posted_bytes l) (sym p)

    go :
        Busy t
        → (t.send_buffer ≡ [])
          ⊎ (t.sending ≡ true)
          ⊎ (has_flush t.posted ≡ true)
          ⊎ (t.is_open ≡ false)
        → t.written ≡ promised t
    go b (inl n) = all n
    go (inl (i, o)) (inr (inl h)) = cc
    go (inr (i, o, c)) (inr (inl h)) = cc
    go b (inr (inr (inl h))) = (let n : has_flush t.posted ≡ false = ap has_flush p in cc)
    go b (inr (inr (inr h))) = (let n = v.opened in cc)

-- An open session on which `close` was not called, when nothing new comes and no write fails: its
-- context takes at most `work` more turns, each a handler or the end of a write, in whatever order;
-- and as long as not every byte is written that was given to `send`, it has a next one.
pub Turns-end :
    {s t : Session} {n : ℕ}
    → IsAlive s
    → Turns s n t
    → (n ≤ work s) × ((t.written ≡ promised s) ⊎ ((u : Session) × Turns s (suc n) u))
unfolding step
Turns-end {s} {t} {n} v turns =
    let (w, p, l) = Turns-Turned v turns in (omega (arith, l), go t.posted t.writing refl refl w p)
  where
    go :
        (ts : List Task) (o : Option (List ℕ))
        → t.posted ≡ ts
        → t.writing ≡ o
        → IsAlive t
        → promised t ≡ promised s
        → (t.written ≡ promised s) ⊎ ((u : Session) × Turns s (suc n) u)
    go [] none e f w p = inl (rests t w e f ∙ p)
    go (x ∷ ts) o e f w p = inr (_, ran turns (ap (run_head t) e))
    go [] (some bytes) e f w p = inr (_, wrote turns (ap (end_write t) f))

-- The handlers that are left when none and no write is left.
pub step-none :
    (t : Session) → step t runs ≡ none → step t writes ≡ none → (t.posted ≡ []) × (t.writing ≡ none)
unfolding step run_head end_write
step-none t r w = go t.posted t.writing refl refl
  where
    go :
        (ts : List Task) (o : Option (List ℕ))
        → t.posted ≡ ts
        → t.writing ≡ o
        → (t.posted ≡ []) × (t.writing ≡ none)
    go [] none e f = (e, f)
    go (x ∷ ts) o e f = cc (sym (ap (run_head t) e), r)
    go [] (some bytes) e f = cc (sym (ap (end_write t) f), w)
