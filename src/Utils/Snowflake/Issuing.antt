-- ===== src/Utils/Snowflake/Issuing.antt =====
-- The steps of `next` in engine/utils/snowflake.hpp: the waiting loop and what a call leaves.
use mathlib.Core.Option
use Prim.Native.Nat.{bit_and}
use cxxprogram.Prelude.{
  Bool-cases, Option, arith, false, inl, inr, ltb, lt→ltb, none, refl, some, subst, suc, sym, true,
  zero, ℕ, ◌%◌, ◌+◌, ◌<◌, ◌==◌, ◌≡◌, ◌≤◌, ◌⊎◌,
}
use cxxprogram.Prelude.Bits.{bit_and-mask}
use cxxprogram.Prelude.Int.{ℤ, pos, negsuc}
use cxxprogram.Utils.Snowflake.{
  Snowflake, compose, sequence_mask, is_at, wait_loop, wait_next_millis, issue, next,
}
use cxxprogram.Utils.Snowflake.Layout.{IsConfigured, IsTime}

module _ (clock : ℕ → ℕ) where
  -- `std::chrono::steady_clock` does not go back; its times lie in the 69 years of the layout.
  pub record IsSteady : Type 0 where
    pub later : (i : ℕ) → clock i ≤ clock (suc i)
    pub times : (i : ℕ) → IsTime (clock i)

  -- No reading lies before the last time noted.
  abbrev pub IsPast : ℤ → ℕ → Type 0
  IsPast (pos l) t = l ≤ t
  IsPast (negsuc l) t = Unit {0}

  pub record IsReady (s : Snowflake) : Type 0 where
    pub configured : IsConfigured s
    pub past : IsPast s.last_timestamp (clock s.readings)

  abbrev pub Before : ℤ → ℕ → ℕ → ℕ → Type 0
  Before (negsuc l) seq t seq' = Unit {0}
  Before (pos l) seq t seq' = (l < t) ⊎ ((l ≡ t) × (seq < seq'))

  -- What a call leaves: the identifier is that of the new state, which comes after the old one.
  pub record Issued (s : Snowflake) (id : ℕ) (s' : Snowflake) : Type 0 where
    pub time : ℕ
    pub noted : s'.last_timestamp ≡ pos time
    pub in_range : IsTime time
    pub composed : id ≡ compose s' time
    pub after : Before s.last_timestamp s.sequence time s'.sequence
    pub ready : IsReady s'
    pub same_worker : s'.workerid ≡ s.workerid
    pub same_datacenter : s'.datacenterid ≡ s.datacenterid

  pub record Waited (l : ℕ) (s : Snowflake) (t : ℕ) (s' : Snowflake) : Type 0 where
    pub passed : l < t
    pub in_range : IsTime t
    pub past : t ≤ clock s'.readings
    pub worker : s'.workerid ≡ s.workerid
    pub datacenter : s'.datacenterid ≡ s.datacenterid
    pub sequence : s'.sequence ≡ s.sequence

  wait_loop-Waited :
      (fuel l t : ℕ) (s : Snowflake) {t' : ℕ} {s' : Snowflake}
      → IsSteady
      → IsTime t
      → t ≤ clock s.readings
      → wait_loop clock fuel (pos l) t s ≡ some (t', s')
      → Waited l s t' s'
  unfolding wait_loop
  wait_loop-Waited zero l t s v h k e = cc
  wait_loop-Waited (suc fuel) l t s {t'} {s'} v h k e = elim (Bool-cases (ltb l t)) [
    | inl i ↦
        let done : ◌≡◌ {A = Option (ℕ × Snowflake)} (some (t, s)) (some (t', s')) =
          rw (i, wait_loop) at e in
        let same : t ≡ t' = ground arith in
        let kept : s ≡ s' = ground arith in
        rw (← same, ← kept)
          (record {
            passed = ground arith;
            in_range = h;
            past = k;
            worker = refl;
            datacenter = refl;
            sequence = refl;
          })
    | inr i ↦
        let again = rw (i, wait_loop) at e in
        let w =
          wait_loop-Waited fuel l (clock s.readings) (record s { readings = suc s.readings })
            {t' = t'} {s' = s'} v (v.times s.readings) (v.later s.readings) again in
        record {
          passed = w.passed;
          in_range = w.in_range;
          past = w.past;
          worker = w.worker;
          datacenter = w.datacenter;
          sequence = w.sequence;
        }
  ]

  -- The wait ends at the first reading past `l`, if one of the next `k` is.
  pub wait_loop-total :
      (k l t : ℕ) (s : Snowflake)
      → l < clock (s.readings + k)
      → (r : ℕ × Snowflake) × (wait_loop clock (suc (suc k)) (pos l) t s ≡ some r)
  unfolding wait_loop
  wait_loop-total zero l t s h = elim (Bool-cases (ltb l t)) [
    | inl i ↦ ((t, s), rw (i, wait_loop))
    | inr i ↦
        let now : ltb l (clock s.readings) ≡ true =
          lt→ltb _ _ (subst (λ n. l < clock n) (omega arith) h) in
        ((clock s.readings, record s { readings = suc s.readings }), rw (i, wait_loop, now))
  ]
  wait_loop-total (suc k) l t s h = elim (Bool-cases (ltb l t)) [
    | inl i ↦ ((t, s), rw (i, wait_loop))
    | inr i ↦
        let s' = record s { readings = suc s.readings } in
        let (r, e) = wait_loop-total k l (clock s.readings) s' (
          subst (λ n. l < clock n)
            (let d : s.readings + suc k ≡ suc s.readings + k = omega arith in d) h) in
        (r, rw (i, wait_loop) e)
  ]

  pub issue-Issued :
      (s w : Snowflake) (t : ℕ)
      → IsConfigured w
      → IsTime t
      → t ≤ clock w.readings
      → Before s.last_timestamp s.sequence t w.sequence
      → w.workerid ≡ s.workerid
      → w.datacenterid ≡ s.datacenterid
      → Issued s (issue clock w t).0 (issue clock w t).1
  unfolding issue
  issue-Issued s w t c h k b m d = record {
    time = t;
    noted = refl;
    in_range = h;
    composed = refl;
    after = b;
    ready = record {
      configured = record { worker = c.worker; datacenter = c.datacenter; counted = c.counted };
      past = k;
    };
    same_worker = m;
    same_datacenter = d;
  }

  pub Issued-pair :
      (s : Snowflake) (r : ℕ × Snowflake) {id : ℕ} {s' : Snowflake}
      → Issued s r.0 r.1
      → some r ≡ some (id, s')
      → Issued s id s'
  Issued-pair s r {id} {s'} h e =
      subst (λ (o : Option (ℕ × Snowflake)). elim o [ none ↦ Unit {0} | some q ↦ Issued s q.0 q.1 ])
        e h

  -- The next number of the sequence; it is 0 only after 4095.
  pub counted : (n : ℕ) → bit_and (n + 1) sequence_mask ≡ (n + 1) % 4096
  counted n = bit_and-mask 12 (n + 1)

  pub Before-new :
      (last : ℤ) (seq t : ℕ) → IsPast last t → is_at last t ≡ false → Before last seq t 0
  Before-new (pos l) seq t h e = inl (ground arith)
  Before-new (negsuc l) seq t h e = tt

  pub at_pos : (last : ℤ) (t : ℕ) → is_at last t ≡ true → last ≡ pos t
  at_pos (pos l) t e = ground arith
  at_pos (negsuc l) t e = cc

  -- The state in which the sequence has gone on by one.
  abbrev pub bumped : Snowflake → Snowflake
  bumped s = record s {
    sequence = bit_and (s.sequence + 1) sequence_mask;
    readings = suc s.readings;
  }

  pub next_wait :
      (fuel : ℕ) (s : Snowflake)
      → is_at s.last_timestamp (clock s.readings) ≡ true
      → (bit_and (s.sequence + 1) sequence_mask == 0) ≡ true
      → next clock fuel s
        ≡ Option.map
            (λ (t, w). issue clock w t)
            (wait_next_millis clock fuel s.last_timestamp (bumped s))
  unfolding next
  next_wait fuel s i j = rw (i, next, j)

  pub waited-Issued :
      (fuel : ℕ) (s : Snowflake) (last : ℤ) (o : Option (ℕ × Snowflake)) {id : ℕ} {s' : Snowflake}
      → IsSteady
      → IsReady s
      → s.last_timestamp ≡ pos (clock s.readings)
      → last ≡ pos (clock s.readings)
      → wait_next_millis clock fuel last (bumped s) ≡ o
      → Option.map (λ (t, w). issue clock w t) o ≡ some (id, s')
      → Issued s id s'
  unfolding wait_next_millis
  waited-Issued fuel s last none v r l k e h = cc
  waited-Issued fuel s last (some (t, w)) v r l k e h =
      let run = subst (λ z. wait_next_millis clock fuel z (bumped s) ≡ some (t, w)) k e in
      let wt =
        wait_loop-Waited fuel (clock s.readings) (clock (suc s.readings))
          (record (bumped s) { readings = suc (suc s.readings) }) v (v.times (suc s.readings))
          (v.later (suc s.readings)) run in
      Issued-pair s _
        (issue-Issued s w t
          (record {
            worker = omega (arith, wt.worker, r.configured.worker);
            datacenter = omega (arith, wt.datacenter, r.configured.datacenter);
            counted = omega (arith, wt.sequence, counted s.sequence);
          })
          wt.in_range wt.past
          (subst (λ z. Before z s.sequence t w.sequence) (sym l) (inl wt.passed)) wt.worker
          wt.datacenter)
        h
