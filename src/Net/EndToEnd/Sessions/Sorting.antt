-- ===== src/Net/EndToEnd/Sessions/Sorting.antt =====
-- Packets sorted by session, and messages cut in two (engine/net/server_base.cpp).
use mathlib.Core.List.{Perm, perm_middle}
use mathlib.Core.List.Perm
use cxxprogram.Prelude.{
  ==_iff, Bool, Bool-cases, List, Option, none, some, [], ap, append-nil, append_assoc, arith,
  false, if◌then◌else◌, inl, inr, refl, subst, sym, true, ℕ, ◌++◌, ◌==◌, ◌∙◌, ◌∷◌, ◌≡◌,
}
use cxxprogram.Net.TcpParser.Reassembly.{All}
use cxxprogram.Net.Queue.{sift}
use cxxprogram.Net.BufferPool.{DataBuffer}
use cxxprogram.Net.Server.{Packet, Session}
use cxxprogram.Net.EndToEnd.Stream.{Message, frames}
use cxxprogram.Net.EndToEnd.Dispatch.{CarryAll, from_session, IsMessage, head_eq, tail_eq}

-- The packets of one session, in the order in which they were queued.
abbrev pub of_session : ℕ → List Packet → List Packet
of_session i [] = []
of_session i (p ∷ ps) = if p.session.sid == i then p ∷ of_session i ps else of_session i ps

pub of_session-append :
    (i : ℕ) (ps qs : List Packet) → of_session i (ps ++ qs) ≡ of_session i ps ++ of_session i qs
of_session-append i [] qs = refl
of_session-append i (p ∷ ps) qs = elim (Bool-cases (p.session.sid == i)) [
  | inl e ↦ rw e (ap (λ l. p ∷ l) (of_session-append i ps qs))
  | inr e ↦ rw e (of_session-append i ps qs)
]

pub ==-self : (i : ℕ) → (i == i) ≡ true
==-self i = ground arith

-- A statement on every session, when one of them is told apart.
pub told_apart :
    (j : ℕ) (S : ℕ → Bool → Type 0)
    → S j true
    → ((i : ℕ) → (j == i) ≡ false → S i false)
    → (i : ℕ) → S i (j == i)
told_apart j S own others i = elim (Bool-cases (j == i)) [
  | inl e ↦
      subst (λ b. S i b) (sym e) (subst (λ k. S k true) (let h : j ≡ i = (==_iff j i).0 e in h) own)
  | inr e ↦ subst (λ b. S i b) (sym e) (others i e)
]

module _ (s : Session) where
  -- Packets that carry messages of a session are all of it, and none is of another.
  pub of_session-own :
      (ms : List Message) (ps : List Packet) → CarryAll s ms ps → of_session s.sid ps ≡ ps
  of_session-own [] [] h = refl
  of_session-own [] (p ∷ ps) h = absurd h
  of_session-own (m ∷ ms) [] h = absurd h
  of_session-own ((msgid, body) ∷ ms) (p ∷ ps) ((e, _, _), hs) =
      let own : (p.session.sid == s.sid) ≡ true =
        ap (λ (t : Session). t.sid == s.sid) e ∙ ==-self s.sid in
      rw own (ap (λ l. p ∷ l) (of_session-own ms ps hs))

  pub of_session-other :
      (i : ℕ) (ms : List Message) (ps : List Packet)
      → (s.sid == i) ≡ false
      → CarryAll s ms ps
      → of_session i ps ≡ []
  of_session-other i [] [] n h = refl
  of_session-other i [] (p ∷ ps) n h = absurd h
  of_session-other i (m ∷ ms) [] n h = absurd h
  of_session-other i ((msgid, body) ∷ ms) (p ∷ ps) n ((e, _, _), hs) =
      let other : (p.session.sid == i) ≡ false = ap (λ (t : Session). t.sid == i) e ∙ n in
      rw other (of_session-other i ms ps n hs)

  pub CarryAll-append :
      (ms ns : List Message) (ps qs : List Packet)
      → CarryAll s ms ps
      → CarryAll s ns qs
      → CarryAll s (ms ++ ns) (ps ++ qs)
  CarryAll-append [] ns [] qs h k = k
  CarryAll-append [] ns (p ∷ ps) qs h k = absurd h
  CarryAll-append (m ∷ ms) ns [] qs h k = absurd h
  CarryAll-append (m ∷ ms) ns (p ∷ ps) qs (h, hs) k = (h, CarryAll-append ms ns ps qs hs k)

-- The packets of a session that have a buffer are among its packets.
pub sift-of_session :
    (i : ℕ) (ps : List Packet) → sift (from_session i) ps ≡ sift (from_session i) (of_session i ps)
sift-of_session i [] = refl
sift-of_session i (p ∷ ps) = elim (Bool-cases (p.session.sid == i)) [
  | inl e ↦ elim (Bool-cases (from_session i p)) [
    | inl f ↦ rw (e, f) (ap (λ l. p ∷ l) (sift-of_session i ps))
    | inr f ↦ rw (e, f) (sift-of_session i ps)
  ]
  | inr e ↦ rw (e, none_from p.buffer e) (sift-of_session i ps)
]
  where
    none_from :
        {b : Bool} (o : Option DataBuffer)
        → b ≡ false
        → elim o [ none ↦ false | some d ↦ b ] ≡ false
    none_from none e = refl
    none_from (some d) e = e

-- Packets cut in two are those of messages cut in two.
pub frames-split :
    (ms : List Message) (fs gs : List (List ℕ))
    → frames ms ≡ fs ++ gs
    → (ms₁ : List Message) × (ms₂ : List Message) × (ms ≡ ms₁ ++ ms₂)
      × (frames ms₁ ≡ fs)
      × (frames ms₂ ≡ gs)
frames-split ms [] gs e = ([], ms, refl, refl, e)
frames-split [] (f ∷ fs) gs e = cc
frames-split (m ∷ ms) (f ∷ fs) gs e =
    let (ms₁, ms₂, joined, first, later) = frames-split ms fs gs (tail_eq e) in
    (m ∷ ms₁, ms₂, ap (λ l. m ∷ l) joined, cc (head_eq e, first), later)

pub All-split :
    (ms ns : List Message) → All IsMessage (ms ++ ns) → All IsMessage ms × All IsMessage ns
All-split [] ns h = (tt, h)
All-split (m ∷ ms) ns (h, hs) = let (a, b) = All-split ms ns hs in ((h, a), b)

-- Packets that arrive before others.
append_comm : (ps qs : List Packet) → Perm (ps ++ qs) (qs ++ ps)
append_comm [] qs = subst (λ l. Perm qs l) (sym (append-nil qs)) (Perm.refl qs)
append_comm (p ∷ ps) qs =
    Perm.trans (Perm.cons p (append_comm ps qs)) (Perm.symm (perm_middle qs ps))

pub queued_before :
    (ps qs items items' items'' : List Packet)
    → Perm items'' (qs ++ items')
    → Perm items' (ps ++ items)
    → Perm items'' ((ps ++ qs) ++ items)
queued_before ps qs items items' items'' h k = Perm.trans (Perm.trans h (Perm.append_left qs k)) (
    subst (λ l. Perm l ((ps ++ qs) ++ items)) (append_assoc qs ps items)
      (Perm.append_right items (append_comm qs ps)))
