-- ===== src/Net/Server/Sessions.antt =====
-- Which sessions the server knows, and which packets reach the dispatcher.
use mathlib.Core.List.{Perm}
use mathlib.Core.List.Perm
use cxxprogram.Prelude.{
  Bool, List, Option-cases, [], ap, arith, if◌then◌else◌, inl, inr, length, none, refl, some, suc,
  sym, true, zero, ℕ, ◌++◌, ◌<◌, ◌==◌, ◌∙◌, ◌∷◌, ◌≡◌,
}
use cxxprogram.Net.Queue.{ConcurrentQueue, KeepsOrder, sift, sift-append}
use cxxprogram.Net.BufferPool.Alloc.{length-perm}
use cxxprogram.Net.Server.{
  Packet, Server, Session, connected, closeed, find, put, erase, on_connect, on_close, get_session,
  update,
}

find-put :
    (k j : ℕ) (s : Session) (m : List (ℕ × Session))
    → find j (put k s m) ≡ (if k == j then some s else find j m)
find-put k j s [] = refl
find-put k j s ((i, t) ∷ m) = ground (arith, find-put k j s m)

find-erase :
    (k j : ℕ) (m : List (ℕ × Session)) → find j (erase k m) ≡ (if k == j then none else find j m)
find-erase k j [] = ground arith
find-erase k j ((i, t) ∷ m) = ground (arith, find-erase k j m)

module _ (P : ConcurrentQueue Packet) where
  -- After `on_connect` the session is found under its identifier, and the others as before; one
  -- packet, the notice of the connection, has joined the queue.
  pub on_connect_lem :
      (v : Server P) (s : Session) (sid : ℕ)
      → (get_session P (on_connect P v s) sid
          ≡ (if s.sid == sid then some s else get_session P v sid))
        × Perm
            (P.items (on_connect P v s).msg_queue)
            (record { session = s; msgid = connected; buffer = none } ∷ P.items v.msg_queue)
  unfolding on_connect get_session
  on_connect_lem v s sid = (find-put s.sid sid s v.sessions, P.items-enqueue _ v.msg_queue)

  -- After `on_close` no session is found under that identifier, and the others as before; one
  -- packet, the notice of the end, has joined the queue.
  pub on_close_lem :
      (v : Server P) (s : Session) (sid : ℕ)
      → (get_session P (on_close P v s) sid ≡ (if s.sid == sid then none else get_session P v sid))
        × Perm
            (P.items (on_close P v s).msg_queue)
            (record { session = s; msgid = closeed; buffer = none } ∷ P.items v.msg_queue)
  unfolding on_close get_session
  on_close_lem v s sid = (find-erase s.sid sid v.sessions, P.items-enqueue _ v.msg_queue)

  -- `update` ends, with one round for each packet and one to see the end: every packet that was
  -- queued goes to the dispatcher once, no other does, and the queue is empty; and the packets of one
  -- producer go there in their order, where the queue keeps it.
  pub update_lem :
      (fuel : ℕ) (q : P.Carrier)
      → length (P.items q) < fuel
      → (packets : List Packet) × (r : P.Carrier) × (update P fuel true q ≡ some (packets, r))
        × Perm (P.items q) packets
        × (P.items r ≡ [])
        × ((from : ℕ → Packet → Bool)
            → KeepsOrder P from
            → (i : ℕ) → sift (from i) (P.items q) ≡ sift (from i) packets)
  unfolding update
  update_lem zero q h = absurd (omega arith)
  update_lem (suc fuel) q h = elim (Option-cases (P.try_dequeue q)) [
    | inl e ↦
        let gone = P.items-try_dequeue_none q e in
        ([], q, rw (e, update), rw gone (Perm.refl []), gone, λ from k i. ap (sift (from i)) gone)
    | inr ((packet, q'), e) ↦
        let p = P.items-try_dequeue packet q q' e in
        let (packets, r, run, same, gone, order) =
          update_lem fuel q' (omega (arith, length-perm _ _ p)) in
        (
          packet ∷ packets,
          r,
          rw (e, update, run),
          Perm.trans p (Perm.cons packet same),
          gone,
          λ from k i.
              k.first_out i packet q q' e
              ∙ ap (λ l. sift (from i) (packet ∷ []) ++ l) (order from k i)
              ∙ sym (sift-append (from i) (packet ∷ []) packets),
        )
  ]
