-- ===== src/Unittest/Echo/Flights.antt =====
-- How many packets are on their way between the programs of unittest/t_asio.
use cxxprogram.Prelude.{
  List, [], ap, arith, if◌then◌else◌, inl, inr, refl, subst, suc, ℕ, ◌*◌, ◌++◌, ◌+◌, ◌==◌, ◌∷◌, ◌≡◌,
  ◌⊎◌,
}
use cxxprogram.Net.Server.{connected}
use cxxprogram.Unittest.Echo.{
  Packet, Program, answer, server_dispatch, client_dispatch, Pair, begin, Step, connects, serves,
  asks, server_reports, client_reports, Reach, here, next,
}

-- How often a session stands in a list, and how many packets are its own.
abbrev pub times : ℕ → List ℕ → ℕ
times k [] = 0
times k (j ∷ js) = if j == k then suc (times k js) else times k js

abbrev pub flights : ℕ → List Packet → ℕ
flights k [] = 0
flights k ((j, m) ∷ ps) = if j == k then suc (flights k ps) else flights k ps

-- The client answers every packet that it can have got.
abbrev AllAnswered : List Packet → Type 0
AllAnswered [] = Unit {0}
AllAnswered ((j, m) ∷ ps) = ((m ≡ connected) ⊎ (m ≡ answer)) × AllAnswered ps

flights-append : (k : ℕ) (ps qs : List Packet) → flights k (ps ++ qs) ≡ flights k ps + flights k qs
flights-append k [] qs = omega arith
flights-append k ((j, m) ∷ ps) qs = ground (arith, flights-append k ps qs)

AllAnswered-append :
    (ps qs : List Packet) → AllAnswered ps → AllAnswered qs → AllAnswered (ps ++ qs)
AllAnswered-append [] qs h l = l
AllAnswered-append (p ∷ ps) qs (h, hs) l = (h, AllAnswered-append ps qs hs l)

AllAnswered-middle :
    (xs : List Packet) (p : Packet) (ys : List Packet)
    → AllAnswered (xs ++ p ∷ ys)
    → AllAnswered xs × ((p.1 ≡ connected) ⊎ (p.1 ≡ answer)) × AllAnswered ys
AllAnswered-middle [] p ys (h, hs) = (tt, h, hs)
AllAnswered-middle (x ∷ xs) p ys (h, hs) =
    let (l, m, r) = AllAnswered-middle xs p ys hs in ((h, l), m, r)

-- A packet that is taken out was one of its session's.
flights-middle :
    (k : ℕ) (xs : List Packet) (p : Packet) (ys : List Packet)
    → flights k (xs ++ p ∷ ys) ≡ flights k (p ∷ []) + flights k (xs ++ ys)
flights-middle k [] p ys = ground arith
flights-middle k (x ∷ xs) p ys = ground (arith, flights-middle k xs p ys)

-- One packet for another of the same session.
client_dispatch-flights :
    (k : ℕ) (a : Program) (p : Packet)
    → AllAnswered (p ∷ [])
    → flights k (client_dispatch a p).1 ≡ flights k (p ∷ [])
unfolding client_dispatch
client_dispatch-flights k a (j, m) (h, _) = ground arith

server_dispatch-flights :
    (k : ℕ) (a : Program) (p : Packet) → flights k (server_dispatch a p).1 ≡ flights k (p ∷ [])
unfolding server_dispatch
server_dispatch-flights k a (j, m) = refl

server_dispatch-AllAnswered : (a : Program) (p : Packet) → AllAnswered (server_dispatch a p).1
unfolding server_dispatch
server_dispatch-AllAnswered a (j, m) = (inr refl, tt)

record IsPaired (s : Pair) : Type 0 where
  pub answered : AllAnswered s.to_client
  pub two : (k : ℕ) → flights k s.to_server + flights k s.to_client ≡ 2 * times k s.sessions

Step-IsPaired : {s t : Pair} → Step s t → IsPaired s → IsPaired t
Step-IsPaired {s = s} (connects j) v = record {
  answered = AllAnswered-append s.to_client ((j, connected) ∷ []) v.answered (inl refl, tt);
  two = λ k. ground (
    arith,
    flights-append k s.to_server ((j, connected) ∷ []),
    flights-append k s.to_client ((j, connected) ∷ []),
    v.two k,
  );
}
Step-IsPaired {s = s} (serves xs p ys e) v = record {
  answered =
      AllAnswered-append s.to_client (server_dispatch s.server p).1 v.answered
        (server_dispatch-AllAnswered s.server p);
  two = λ k. omega (
    arith,
    flights-append k s.to_client (server_dispatch s.server p).1,
    server_dispatch-flights k s.server p,
    flights-middle k xs p ys,
    ap (flights k) e,
    v.two k,
  );
}
Step-IsPaired {s = s} (asks xs p ys e) v =
    let (first, h, later) = AllAnswered-middle xs p ys (subst AllAnswered e v.answered) in
    record {
      answered = AllAnswered-append xs ys first later;
      two = λ k. omega (
        arith,
        flights-append k s.to_server (client_dispatch s.client p).1,
        client_dispatch-flights k s.client p (h, tt),
        flights-middle k xs p ys,
        ap (flights k) e,
        v.two k,
      );
    }
Step-IsPaired (server_reports now) v = record { answered = v.answered; two = v.two }
Step-IsPaired (client_reports now) v = record { answered = v.answered; two = v.two }

Reach-IsPaired : {s t : Pair} → IsPaired s → Reach s t → IsPaired t
Reach-IsPaired v here = v
Reach-IsPaired v (next r st) = Step-IsPaired st (Reach-IsPaired v r)

-- However the programs take turns, with any number of connections that come about in between: each
-- connection has two packets on their way or waiting, neither more nor fewer.
pub Reach-two :
    {t : Pair} (now k : ℕ)
    → Reach (begin now) t
    → flights k t.to_server + flights k t.to_client ≡ 2 * times k t.sessions
Reach-two now k r = (Reach-IsPaired (record { answered = tt; two = λ j. refl }) r).two k
