-- ===== src/Utils/Snowflake/Many.antt =====
-- Many calls of `next` of engine/utils/snowflake.hpp: they end, and their identifiers increase.
use mathlib.Core.Option
use Prim.Native.Nat.{bit_and}
use cxxprogram.Prelude.{
  Bool, Bool-cases, List, Option, [], ap, arith, false, inl, inr, length, none, refl, some,
  some-inj, suc, sym, true, zero, ℕ, ◌*◌, ◌+◌, ◌<◌, ◌==◌, ◌∷◌, ◌≡◌, ◌≤◌,
}
use cxxprogram.Prelude.Int.{ℤ}
use cxxprogram.Utils.Snowflake.{
  Snowflake, sequence_mask, is_at, is_after, wait_loop, wait_next_millis, issue, next,
}
use cxxprogram.Utils.Snowflake.Increasing.{
  IsSteady, IsReady, next-Issued, next-total, next_many, next_many-Increasing, Increasing,
}

module _ (clock : ℕ → ℕ) where
  -- Until reading number `n`, the clock goes on within `k + 2` readings.
  abbrev pub GoesOn : ℕ → ℕ → Type 0
  GoesOn k n = (i : ℕ) → i < n → clock i < clock (suc i + suc k)

  wait_loop-readings :
      (fuel : ℕ) (last : ℤ) (t : ℕ) (s : Snowflake) {t' : ℕ} {s' : Snowflake}
      → wait_loop clock fuel last t s ≡ some (t', s')
      → s'.readings ≤ s.readings + fuel
  unfolding wait_loop
  wait_loop-readings zero last t s e = cc
  wait_loop-readings (suc fuel) last t s {t'} {s'} e = elim (Bool-cases (is_after last t)) [
    | inl i ↦
        let done : ◌≡◌ {A = Option (ℕ × Snowflake)} (some (t, s)) (some (t', s')) =
          rw (i, wait_loop) at e in
        omega (arith, ap (λ (p : ℕ × Snowflake). p.1.readings) (some-inj _ _ done))
    | inr i ↦
        let again = rw (i, wait_loop) at e in
        omega (
          arith,
          wait_loop-readings fuel last (clock s.readings) (record s { readings = suc s.readings })
              {t' = t'} {s' = s'} again,
        )
  ]

  -- The state that `next` leaves, by the branch it takes.
  issued-readings :
      (t : ℕ) (s : Snowflake) {id : ℕ} {s' : Snowflake}
      → ◌≡◌ {A = Option (ℕ × Snowflake)} (some (issue clock s t)) (some (id, s'))
      → s'.readings ≡ s.readings
  unfolding issue
  issued-readings t s e = sym (ap (λ (p : ℕ × Snowflake). p.1.readings) (some-inj _ _ e))

  waited-readings :
      (fuel : ℕ) (s : Snowflake) (o : Option (ℕ × Snowflake)) {id : ℕ} {s' : Snowflake}
      → wait_next_millis clock fuel s.last_timestamp s ≡ o
      → Option.map (λ (t, w). issue clock w t) o ≡ some (id, s')
      → s'.readings ≤ s.readings + suc fuel
  unfolding wait_next_millis
  waited-readings fuel s none w e = cc
  waited-readings fuel s (some (t, r)) w e = omega (
    arith,
    issued-readings t r e,
    wait_loop-readings fuel s.last_timestamp (clock s.readings)
        (record s { readings = suc s.readings }) w,
  )

  next-readings :
      (fuel : ℕ) (s : Snowflake) {id : ℕ} {s' : Snowflake}
      → next clock fuel s ≡ some (id, s')
      → s'.readings ≤ s.readings + (fuel + 2)
  unfolding next
  next-readings fuel s {id} {s'} e =
      go (is_at s.last_timestamp (clock s.readings)) refl
        (bit_and (s.sequence + 1) sequence_mask == 0) refl
    where
      counted : Snowflake
      counted = record s {
        readings = suc s.readings;
        sequence = bit_and (s.sequence + 1) sequence_mask;
      }

      go :
          (b : Bool)
          → is_at s.last_timestamp (clock s.readings) ≡ b
          → (c : Bool) → (bit_and (s.sequence + 1) sequence_mask == 0) ≡ c
          → s'.readings ≤ s.readings + (fuel + 2)
      go false i c j = omega (
        arith,
        issued-readings (clock s.readings) (record s { readings = suc s.readings; sequence = 0 })
            (rw (i, next) at e),
      )
      go true i false j =
          omega (arith, issued-readings (clock s.readings) counted (rw (i, next, j) at e))
      go true i true j = omega (arith, waited-readings fuel counted _ refl (rw (i, next, j) at e))

  next_many_total :
      (k n : ℕ) (s : Snowflake)
      → IsSteady clock
      → IsReady clock s
      → GoesOn k (s.readings + n * (k + 4))
      → (ids : List ℕ) × (z : Snowflake) × (next_many clock (suc (suc k)) n s ≡ some (ids, z))
        × (length ids ≡ n)
  unfolding next_many
  next_many_total k zero s v r g = ([], s, refl, refl)
  next_many_total k (suc n) s v r g =
      let ((id, s'), e) = next-total clock k s (g s.readings (omega arith)) in
      let i = next-Issued clock (suc (suc k)) s v r e in
      let used = next-readings (suc (suc k)) s e in
      let (ids, z, f, size) =
        next_many_total k n s' v i.ready (λ j h. g j (omega (arith, h, used))) in
      (id ∷ ids, z, rw (e, next_many, f) refl, ap suc size)

  -- Under a clock that does not go back, and that goes on within `k + 2` readings as long as the calls
  -- may read it: with fuel `k + 2`, that many calls one after another all end, and give as many
  -- identifiers, each larger than the one before, also when several fall into one millisecond.
  pub next_many_lem :
      (k n : ℕ) (s : Snowflake)
      → IsSteady clock
      → IsReady clock s
      → GoesOn k (s.readings + suc n * (k + 4))
      → (id : ℕ) × (ids : List ℕ) × (z : Snowflake) × (next_many clock (suc (suc k)) (suc n) s
          ≡ some (id ∷ ids, z))
        × (length ids ≡ n)
        × Increasing clock id ids
  unfolding next_many
  next_many_lem k n s v r g =
      let ((id, s'), e) = next-total clock k s (g s.readings (omega arith)) in
      let i = next-Issued clock (suc (suc k)) s v r e in
      let used = next-readings (suc (suc k)) s e in
      let (ids, z, f, size) =
        next_many_total k n s' v i.ready (λ j h. g j (omega (arith, h, used))) in
      (
        id,
        ids,
        z,
        rw (e, next_many, f) refl,
        size,
        next_many-Increasing clock (suc (suc k)) n s v r e f,
      )
