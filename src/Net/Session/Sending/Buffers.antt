-- ===== src/Net/Session/Sending/Buffers.antt =====
-- The two buffers of a session of engine/net/tcp_session.h: the invariant, and `do_send`.
use cxxprogram.Prelude.{
  Bool, Bool-cases, List, Option, [], ap, append-nil, arith, false, inl, inr, none, refl, some,
  subst, sym, true, ℕ, ◌++◌, ◌∙◌, ◌∷◌, ◌≡◌, ◌⊎◌,
}
use cxxprogram.Net.Session.{
  Session, Task, flush, append_and_flush, shut, is_nil, do_send, run_flush,
}

abbrev pub under_way : Option (List ℕ) → List ℕ
under_way none = []
under_way (some bytes) = bytes

-- The bytes that are written, those on their way, and those that wait.
abbrev pub stream : Session → List ℕ
stream s = s.written ++ (under_way s.writing ++ s.send_buffer)

abbrev pub has_flush : List Task → Bool
has_flush [] = false
has_flush (flush ∷ ts) = true
has_flush (append_and_flush bytes ∷ ts) = true
has_flush (shut ∷ ts) = has_flush ts

pub record IsSending (s : Session) : Type 0 where
  -- A write is under way exactly while `sending_` is set, and it is that of the cache.
  pub busy :
      ((s.sending ≡ true) × (s.writing ≡ some s.cache_buffer))
      ⊎ ((s.sending ≡ false) × (s.writing ≡ none) × (s.cache_buffer ≡ []))
  -- Bytes that wait have a handler to come.
  pub awake :
      (s.send_buffer ≡ []) ⊎ (s.sending ≡ true) ⊎ (has_flush s.posted ≡ true) ⊎ (s.is_open ≡ false)

pub has_flush-append :
    (ts : List Task) (t : Task) → has_flush ts ≡ true → has_flush (ts ++ t ∷ []) ≡ true
has_flush-append [] t h = cc
has_flush-append (flush ∷ ts) t h = refl
has_flush-append (append_and_flush bytes ∷ ts) t h = refl
has_flush-append (shut ∷ ts) t h = has_flush-append ts t h

pub has_flush_last : (ts : List Task) → has_flush (ts ++ flush ∷ []) ≡ true
has_flush_last [] = refl
has_flush_last (flush ∷ ts) = refl
has_flush_last (append_and_flush bytes ∷ ts) = refl
has_flush_last (shut ∷ ts) = has_flush_last ts

-- What a handler keeps: the invariant, and the bytes in their order.
abbrev Keeps : Session → Session → Type 0
Keeps s t = IsSending t × (stream t ≡ stream s)

pub nil_of_is_nil : (l : List ℕ) → is_nil l ≡ true → l ≡ []
nil_of_is_nil [] h = refl
nil_of_is_nil (b ∷ l) h = cc

pub do_send-closed : (s : Session) → s.is_open ≡ false → do_send s ≡ s
unfolding do_send
do_send-closed s e = ground arith

pub do_send-nothing :
    (s : Session)
    → s.is_open ≡ true
    → is_nil s.send_buffer ≡ true
    → do_send s
      ≡ record s { send_buffer = s.cache_buffer; cache_buffer = s.send_buffer; sending = false }
unfolding do_send
do_send-nothing s e n = ground arith

pub do_send-something :
    (s : Session)
    → s.is_open ≡ true
    → is_nil s.send_buffer ≡ false
    → do_send s ≡ record s {
      send_buffer = s.cache_buffer;
      cache_buffer = s.send_buffer;
      sending = true;
      writing = some s.send_buffer;
    }
unfolding do_send
do_send-something s e n = ground arith

-- `do_send`, when no write is under way: the stream stays, and what waits is taken along, unless the
-- socket is closed.
pub do_send-Keeps :
    (s : Session) → s.sending ≡ false → s.writing ≡ none → s.cache_buffer ≡ [] → Keeps s (do_send s)
do_send-Keeps s i w c = elim (Bool-cases s.is_open) [
  | inr closed ↦
      subst (Keeps s) (sym (do_send-closed s closed))
        (record { busy = inr (i, w, c); awake = inr (inr (inr closed)) }, refl)
  | inl is_open ↦ elim (Bool-cases (is_nil s.send_buffer)) [
    | inl n ↦
        let empty = nil_of_is_nil s.send_buffer n in
        subst (Keeps s) (sym (do_send-nothing s is_open n)) (
          record { busy = inr (refl, w, empty); awake = inl c },
          ap (λ b. s.written ++ (under_way s.writing ++ b)) (c ∙ sym empty),
        )
    | inr n ↦ subst (Keeps s) (sym (do_send-something s is_open n)) (
      record { busy = inl (refl, refl); awake = inr (inl refl) },
      ap (◌++◌ s.written) (
          ap (◌++◌ s.send_buffer) c
          ∙ append-nil s.send_buffer
          ∙ ap (λ o. under_way o ++ s.send_buffer) (sym w)),
    )
  ]
]

abbrev pub Busy : Session → Type 0
Busy s =
    ((s.sending ≡ true) × (s.writing ≡ some s.cache_buffer))
    ⊎ ((s.sending ≡ false) × (s.writing ≡ none) × (s.cache_buffer ≡ []))

pub run_flush-busy : (s : Session) → s.sending ≡ true → run_flush s ≡ s
unfolding run_flush
run_flush-busy s e = ground arith

pub run_flush-free : (s : Session) → s.sending ≡ false → run_flush s ≡ do_send s
unfolding run_flush
run_flush-free s e = ground arith

pub run_flush-Keeps : (s : Session) → Busy s → Keeps s (run_flush s)
run_flush-Keeps s (inl (i, w)) =
    subst (Keeps s) (sym (run_flush-busy s i))
      (record { busy = inl (i, w); awake = inr (inl i) }, refl)
run_flush-Keeps s (inr (i, w, c)) =
    subst (Keeps s) (sym (run_flush-free s i)) (do_send-Keeps s i w c)
