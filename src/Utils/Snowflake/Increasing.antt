-- ===== src/Utils/Snowflake/Increasing.antt =====
-- `next` of engine/utils/snowflake.hpp: its order, and when it ends.
use mathlib.Core.Option
use Prim.Native.Nat.{bit_and}
use cxxprogram.Prelude.{
  >>=-eq-some, Bool, List, Option, [], ap, arith, false, inr, refl, some, some-eq_fst, subst, suc,
  sym, true, zero, ℕ, ◌+◌, ◌<◌, ◌==◌, ◌>>=◌, ◌∙◌, ◌∷◌, ◌≡◌,
}
use cxxprogram.Prelude.Bits.{}
use cxxprogram.Prelude.Int.{pos}
use cxxprogram.Utils.Snowflake.{
  Snowflake, compose, sequence_mask, is_at, wait_next_millis, issue, next,
}
use cxxprogram.Utils.Snowflake.Layout.{IsConfigured, IsTime, compose_lem}
pub use cxxprogram.Utils.Snowflake.Issuing.{IsReady, IsSteady, Issued}
use cxxprogram.Utils.Snowflake.Issuing.{
  Before, wait_loop-total, issue-Issued, Issued-pair, counted, Before-new, at_pos, bumped,
  next_wait, waited-Issued,
}

module _ (clock : ℕ → ℕ) where
  -- What one call leaves, whatever the fuel: an identifier of a later time, or of the same time and
  -- a later number.
  pub next-Issued :
      (fuel : ℕ) (s : Snowflake) {id : ℕ} {s' : Snowflake}
      → IsSteady clock
      → IsReady clock s
      → next clock fuel s ≡ some (id, s')
      → Issued clock s id s'
  unfolding next
  next-Issued fuel s {id} {s'} v r e =
      go (is_at s.last_timestamp (clock s.readings)) refl
        (bit_and (s.sequence + 1) sequence_mask == 0) refl
    where
      go :
          (b : Bool)
          → is_at s.last_timestamp (clock s.readings) ≡ b
          → (c : Bool) → (bit_and (s.sequence + 1) sequence_mask == 0) ≡ c
          → Issued clock s id s'
      go false i c j =
          Issued-pair clock s _
            (issue-Issued clock s (record s { sequence = 0; readings = suc s.readings })
              (clock s.readings)
              (record {
                worker = r.configured.worker;
                datacenter = r.configured.datacenter;
                counted = omega arith;
              })
              (v.times s.readings) (v.later s.readings)
              (Before-new clock s.last_timestamp s.sequence (clock s.readings) r.past i) refl refl)
            (rw (i, next) at e)
      go true i true j =
          waited-Issued clock fuel s s.last_timestamp _ v r (at_pos clock _ _ i)
            (at_pos clock _ _ i) refl (sym (next_wait clock fuel s i j) ∙ e)
      go true i false j =
          Issued-pair clock s _
            (issue-Issued clock s (bumped clock s) (clock s.readings)
              (record {
                worker = r.configured.worker;
                datacenter = r.configured.datacenter;
                counted = omega (arith, counted clock s.sequence);
              })
              (v.times s.readings) (v.later s.readings)
              (subst (λ z. Before clock z s.sequence (clock s.readings) (bumped clock s).sequence)
                (sym (at_pos clock _ _ i))
                (inr (refl, ground (arith, counted clock s.sequence, r.configured.counted))))
              refl refl)
            (rw (i, next, j) at e)

  -- If the clock has gone on by its reading number `k + 2` from the one that a call begins with,
  -- the call ends, with fuel `k + 2`.
  pub next-total :
      (k : ℕ) (s : Snowflake)
      → clock s.readings < clock (suc s.readings + suc k)
      → (r : ℕ × Snowflake) × (next clock (suc (suc k)) s ≡ some r)
  unfolding next
  next-total k s h =
      go (is_at s.last_timestamp (clock s.readings)) refl
        (bit_and (s.sequence + 1) sequence_mask == 0) refl
    where
      go :
          (b : Bool)
          → is_at s.last_timestamp (clock s.readings) ≡ b
          → (c : Bool) → (bit_and (s.sequence + 1) sequence_mask == 0) ≡ c
          → (r : ℕ × Snowflake) × (next clock (suc (suc k)) s ≡ some r)
      go false i c j = (
        issue clock (record s { sequence = 0; readings = suc s.readings }) (clock s.readings),
        rw (i, next),
      )
      go true i false j = (issue clock (bumped clock s) (clock s.readings), rw (i, next, j))
      go true i true j =
          let (r, e) =
            wait_loop-total clock k (clock s.readings) (clock (suc s.readings))
              (record (bumped clock s) { readings = suc (suc s.readings) })
              (subst (λ n. clock s.readings < clock n) (omega arith) h) in
          (
            issue clock r.1 r.0,
            next_wait clock (suc (suc k)) s i j
                ∙ ap
                    (λ last.
                      Option.map (λ (t, w). issue clock w t)
                        (wait_next_millis clock (suc (suc k)) last (bumped clock s)))
                    (at_pos clock _ _ i)
                ∙ ap (Option.map (λ (t, w). issue clock w t)) e,
          )

  pub Issued-lt :
      (s : Snowflake) (t : ℕ) (id : ℕ) (s' : Snowflake)
      → IsTime t
      → IsConfigured s
      → s.last_timestamp ≡ pos t
      → Issued clock s id s'
      → compose s t < id
  Issued-lt s t id s' h c l n =
      let b : Before clock (pos t) s.sequence n.time s'.sequence =
        subst (λ z. Before clock z s.sequence n.time s'.sequence) l n.after in
      omega (
        arith,
        compose_lem s t c h,
        compose_lem s' n.time n.ready.configured n.in_range,
        n.composed,
        n.same_worker,
        n.same_datacenter,
      )

  -- `n` calls, one after another.
  unfoldable pub next_many : ℕ → ℕ → Snowflake → Option (List ℕ × Snowflake)
  next_many fuel zero s = some ([], s)
  next_many fuel (suc n) s = do
    (id, s') ← next clock fuel s
    (ids, s'') ← next_many fuel n s'
    some (id ∷ ids, s'')

  -- Each number is larger than the one before, and all are larger than `lo`.
  abbrev pub Increasing : ℕ → List ℕ → Type 0
  Increasing lo [] = Unit {0}
  Increasing lo (x ∷ xs) = (lo < x) × Increasing x xs

  many_from :
      (fuel n : ℕ) (s : Snowflake) (t : ℕ) {ids : List ℕ} {z : Snowflake}
      → IsSteady clock
      → IsReady clock s
      → IsTime t
      → s.last_timestamp ≡ pos t
      → next_many fuel n s ≡ some (ids, z)
      → Increasing (compose s t) ids
  unfolding next_many
  many_from fuel zero s t {ids} {z} v r h l e =
      subst (Increasing (compose s t)) (some-eq_fst [] ids s z e) tt
  many_from fuel (suc n) s t {ids} {z} v r h l e =
      let ((id, s'), now, later) = >>=-eq-some (next clock fuel s) _ e in
      let ((rest, s''), then', done) = >>=-eq-some (next_many fuel n s') _ later in
      let i = next-Issued fuel s v r now in
      subst (Increasing (compose s t)) (some-eq_fst (id ∷ rest) ids s'' z done) (
        Issued-lt s t id s' h r.configured l i,
        subst (λ a. Increasing a rest) (sym i.composed)
            (many_from fuel n s' i.time v i.ready i.in_range i.noted then'),
      )

  -- Under a clock that does not go back, the identifiers that one generator hands out in turn
  -- increase, from the first call on, also when several fall into one millisecond.
  pub next_many-Increasing :
      (fuel n : ℕ) (s : Snowflake) {id : ℕ} {ids : List ℕ} {s' z : Snowflake}
      → IsSteady clock
      → IsReady clock s
      → next clock fuel s ≡ some (id, s')
      → next_many fuel n s' ≡ some (ids, z)
      → Increasing id ids
  next_many-Increasing fuel n s {ids = ids} v r now later =
      let i = next-Issued fuel s v r now in
      subst (λ a. Increasing a ids) (sym i.composed)
        (many_from fuel n _ i.time v i.ready i.in_range i.noted later)
