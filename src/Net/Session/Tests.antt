-- ===== src/Net/Session/Tests.antt =====
-- A session at work, and its theorems at small inputs.
use cxxprogram.Prelude.{
  List, [], false, inl, inr, none, refl, some, true, ℕ, ◌++◌, ◌+◌, ◌∷◌, ◌≡◌, ◌≤◌, ◌⊎◌,
}
use cxxprogram.Net.Session.{
  Session, sends, sends_shared, runs, writes, fails_to_write, shut, step, connect, fresh, flush,
}
use cxxprogram.Net.Session.Sending.Buffers.{has_flush, IsSending}
use cxxprogram.Net.Session.Sending.Chunks.{Chunk, all_copied, all_shared, copied, shared, to_come}
use cxxprogram.Net.Session.Sending.{History, here, next, History-written}
use cxxprogram.Net.Session.Draining.{IsAlive, Turns, here as begun, ran, work, promised, Turns-end}
use cxxprogram.Net.Session.Closing.{step-balance, connect-refused, on_write_error-resends}

abbrev idle : Session
idle = record {
  is_open = true;
  send_buffer = [];
  cache_buffer = [];
  sending = false;
  writing = none;
  posted = [];
  reading = true;
  written = [];
  connects = 1;
  closes = 0;
}

abbrev sent : Session
sent = record idle { written = 2 ∷ 3 ∷ 1 ∷ [] }

idle-IsSending : IsSending idle
idle-IsSending = record { busy = inr (refl, refl, refl); awake = inl refl }

abbrev calls : List Chunk
calls = shared (1 ∷ []) ∷ copied (2 ∷ 3 ∷ []) ∷ []

abbrev puts : List Chunk
puts = copied (2 ∷ 3 ∷ []) ∷ shared (1 ∷ []) ∷ []

-- `send(buffer)` and then `send(data, length)`: both handlers run, with the end of a write in between,
-- and the bytes of the second call are written first.
short_history : History idle calls puts sent
unfolding step
short_history =
    next {s = idle} (sends_shared (1 ∷ [])) refl (λ n. n)
      (next (sends (2 ∷ 3 ∷ [])) refl (λ n. n)
        (next runs refl (λ n. n) (next writes refl (λ n. n) (next runs refl (λ n. n) (here refl)))))

History-written_example :
    ((rest : List ℕ) × ((2 ∷ 3 ∷ 1 ∷ []) ++ rest ≡ 2 ∷ 3 ∷ 1 ∷ []))
    × (all_copied puts ≡ all_copied calls)
    × (all_shared puts ++ to_come [] ≡ all_shared calls)
    × (◌≡◌ {A = List ℕ} (2 ∷ 3 ∷ 1 ∷ []) (2 ∷ 3 ∷ 1 ∷ [])
        ⊎ ((has_flush [] ≡ true) ⊎ ((false ≡ true) ⊎ (true ≡ false))))
History-written_example =
    History-written {s = idle} {t = sent} {calls = calls} {puts = puts} idle-IsSending refl
      short_history

-- The handler of `close` is about to run.
abbrev ending : Session
ending = record idle { posted = shut ∷ [] }

abbrev ended : Session
ended = record idle { is_open = false; closes = 1 }

step-balance_example : ended.closes + 0 ≡ idle.closes + 1
unfolding step
step-balance_example = step-balance ending runs {t = ended} refl

connect_refused_runs :
    ((connect fresh true false).0 ≡ false)
    × ((u : Session) × (step (connect fresh true false).1 runs ≡ some u)
        × (u.connects ≡ 0)
        × (u.closes ≡ 1)
        × (u.is_open ≡ false))
unfolding fresh
connect_refused_runs = connect-refused fresh refl refl

-- Three bytes are on their way, and two more wait with their handler.
abbrev writing_three : Session
writing_three = record idle {
  send_buffer = 4 ∷ 5 ∷ [];
  cache_buffer = 1 ∷ 2 ∷ 3 ∷ [];
  sending = true;
  writing = some (1 ∷ 2 ∷ 3 ∷ []);
  posted = flush ∷ [];
}

on_write_error-resends_example :
    (t u v w : Session) × (step writing_three (fails_to_write 1) ≡ some t)
    × (step t runs ≡ some u)
    × (step u writes ≡ some v)
    × (step v writes ≡ some w)
    × (w.written ≡ 1 ∷ 4 ∷ 5 ∷ 1 ∷ 2 ∷ 3 ∷ [])
on_write_error-resends_example =
    on_write_error-resends writing_three (1 ∷ 2 ∷ 3 ∷ []) [] 1
      (record { busy = inl (refl, refl); awake = inr (inl refl) }) refl refl refl refl refl

-- Two handlers are posted and two bytes wait; the first handler runs.
abbrev two_posted : Session
two_posted = record idle { send_buffer = 1 ∷ 2 ∷ []; posted = flush ∷ flush ∷ [] }

abbrev one_posted : Session
one_posted = record idle {
  cache_buffer = 1 ∷ 2 ∷ [];
  sending = true;
  writing = some (1 ∷ 2 ∷ []);
  posted = flush ∷ [];
}

two_posted-IsAlive : IsAlive two_posted
two_posted-IsAlive = record {
  sending = record { busy = inr (refl, refl, refl); awake = inr (inr (inl refl)) };
  opened = refl;
  unshut = refl;
}

one_turn : Turns two_posted 1 one_posted
unfolding step
one_turn = ran begun refl

Turns-end_example :
    (1 ≤ work two_posted)
    × ((one_posted.written ≡ promised two_posted) ⊎ ((u : Session) × Turns two_posted 2 u))
Turns-end_example = Turns-end two_posted-IsAlive one_turn
