-- ===== src/Utils/Snowflake/Layout.antt =====
-- How an identifier of engine/utils/snowflake.hpp is laid out.
use mathlib.Core.Equiv.{IsEquiv, iso_to_equiv}
use mathlib.Core.HLevel.{Σ_prop_path}
use cxxprogram.Prelude.{
  arith, ltb, ltb→lt, lt→ltb, none, some, true, ℕ, ◌%◌, ◌*◌, ◌+◌, ◌-◌, ◌/◌, ◌<◌, ◌^◌, ◌∙◌, ◌≡◌, ◌≤◌,
  ◌⊎◌,
}
use cxxprogram.Prelude.Bits.{bit_or-disjoint}
use cxxprogram.Prelude.Int.{pos, negsuc}
use cxxprogram.Utils.Snowflake.{Snowflake, init, compose, twepoch}

-- The numbers are those that `init` accepts, and the sequence has 12 bits.
pub record IsConfigured (s : Snowflake) : Type 0 where
  pub worker : s.workerid < 32
  pub datacenter : s.datacenterid < 32
  pub counted : s.sequence < 4096

-- A time of 41 bits after the epoch.
abbrev pub IsTime : ℕ → Type 0
IsTime t = (twepoch ≤ t) × (t < twepoch + 2 ^ 41)

-- `init` accepts exactly the numbers 0 to 31, and sets both; else it changes nothing.
pub init_lem :
    (s : Snowflake) (w d : ℕ)
    → ((init s (pos w) (pos d) ≡ some (record s { workerid = w; datacenterid = d }))
        × (w < 32)
        × (d < 32))
      ⊎ ((init s (pos w) (pos d) ≡ none) × ((32 ≤ w) ⊎ (32 ≤ d)))
unfolding init
init_lem s w d = ground arith

-- The identifier is the sum of its fields: no two of them overlap, and none is cut off.
pub compose_lem :
    (s : Snowflake) (t : ℕ)
    → IsConfigured s
    → IsTime t
    → compose s t
      ≡ (t - twepoch) * 4194304 + s.datacenterid * 131072 + s.workerid * 4096 + s.sequence
unfolding compose
compose_lem s t v h =
    rw
      (
        time,
        bit_or-disjoint 22 (t - twepoch) (d * 131072) (omega arith),
        regroup,
        bit_or-disjoint 17 _ (w * 4096) (omega arith),
        regroup2,
        bit_or-disjoint 12 _ s.sequence (omega arith),
      )
      (omega arith)
  where
    d : ℕ
    d = s.datacenterid

    w : ℕ
    w = s.workerid

    time : (t + 2 ^ 64 - twepoch) % 2 ^ 64 * 2 ^ 22 % 2 ^ 64 ≡ (t - twepoch) * 4194304
    time = omega arith

    regroup : (t - twepoch) * 4194304 + d * 131072 ≡ ((t - twepoch) * 32 + d) * 131072
    regroup = omega arith

    regroup2 :
        ((t - twepoch) * 32 + d) * 131072 + w * 4096 ≡ (((t - twepoch) * 32 + d) * 32 + w) * 4096
    regroup2 = omega arith

compose_fields :
    (s : Snowflake) (t : ℕ)
    → IsConfigured s
    → IsTime t
    → let id = compose s t in
      (id / 2 ^ 22 + twepoch ≡ t)
      × (id / 2 ^ 17 % 32 ≡ s.datacenterid)
      × (id / 2 ^ 12 % 32 ≡ s.workerid)
      × (id % 4096 ≡ s.sequence)
      × (id < 2 ^ 63)
compose_fields s t v h = rw (compose_lem s t v h) (omega arith)

-- The numbers below a bound.
abbrev pub Below : ℕ → Type 0
Below n = (k : ℕ) × (ltb k n ≡ true)

Below_eq : (n : ℕ) (a b : Below n) → a.0 ≡ b.0 → a ≡ b
Below_eq n a b e = Σ_prop_path (λ k. hlevel) e

-- What an identifier is made of: the milliseconds since the epoch, the two machine numbers, and the
-- sequence.
abbrev pub Parts : Type 0
Parts = Below (2 ^ 41) × Below 32 × Below 32 × Below 4096

abbrev pub generator : Parts → Snowflake
generator (t, d, w, n) = record {
  last_timestamp = negsuc 0;
  workerid = w.0;
  datacenterid = d.0;
  sequence = n.0;
  readings = 0;
}

generator-IsConfigured : (p : Parts) → IsConfigured (generator p)
generator-IsConfigured (t, d, w, n) = record {
  worker = ltb→lt w.0 32 w.1;
  datacenter = ltb→lt d.0 32 d.1;
  counted = ltb→lt n.0 4096 n.1;
}

in_range : (n : ℕ) (a : Below n) → a.0 < n
in_range n (k, h) = ltb→lt k n h

generator-IsTime : (p : Parts) → IsTime (twepoch + p.0.0)
generator-IsTime p = let h = in_range (2 ^ 41) p.0 in (omega arith, omega arith)

-- The identifier that a generator with these numbers makes at that time.
pub identifier : Parts → Below (2 ^ 63)
identifier p = (
  compose (generator p) (twepoch + p.0.0),
  lt→ltb _ _ (compose_fields _ _ (generator-IsConfigured p) (generator-IsTime p)).4,
)

parts : Below (2 ^ 63) → Parts
parts (id, h) =
    let k = ltb→lt id (2 ^ 63) h in
    (
      (id / 2 ^ 22, lt→ltb _ _ (omega arith)),
      (id / 2 ^ 17 % 32, lt→ltb _ _ (omega arith)),
      (id / 2 ^ 12 % 32, lt→ltb _ _ (omega arith)),
      (id % 4096, lt→ltb _ _ (omega arith)),
    )

identifier-parts : (b : Below (2 ^ 63)) → identifier (parts b) ≡ b
unfolding identifier parts
identifier-parts (id, h) =
    let k = ltb→lt id (2 ^ 63) h in
    let p = parts (id, h) in
    Below_eq _ _ _ (
      compose_lem (generator p) (twepoch + p.0.0) (generator-IsConfigured p) (generator-IsTime p)
      ∙ omega arith)

parts-identifier : (p : Parts) → parts (identifier p) ≡ p
unfolding identifier parts
parts-identifier p =
    let (t, d, w, n, _) =
      compose_fields (generator p) (twepoch + p.0.0) (generator-IsConfigured p)
        (generator-IsTime p) in
    let time = Below_eq _ (parts (identifier p)).0 p.0 (omega (arith, t)) in
    let datacenter = Below_eq _ (parts (identifier p)).1 p.1 d in
    let worker = Below_eq _ (parts (identifier p)).2 p.2 w in
    let sequence = Below_eq _ (parts (identifier p)).3 p.3 n in
    λ i. (time i, datacenter i, worker i, sequence i)

-- The positive `int64_t` are the identifiers, each of one time and one set of numbers: the parts below
-- their bounds can be had in every combination, and no identifier is had from two.
pub identifier-IsEquiv : IsEquiv identifier
identifier-IsEquiv =
    (iso_to_equiv (record {
      fun = identifier;
      inv = parts;
      rinv = identifier-parts;
      linv = parts-identifier;
    })).1
