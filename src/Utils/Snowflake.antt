-- ===== src/Utils/Snowflake.antt =====
-- engine/utils/snowflake.hpp: identifiers of 41 bits of time, two machine numbers of 5 bits and a
-- sequence of 12. A call holds the lock from its first line to its last, so calls are one after
-- another. The clock is an argument: what its readings are, in milliseconds, by their number.
pub mod Layout
pub mod Issuing
pub mod Increasing
pub mod Many
mod Tests
use Prim.Native.Nat.{bit_and, bit_or}
use mathlib.Core.Option
use cxxprogram.Prelude.{
  Bool, Option, false, if◌then◌else◌, ltb, none, some, suc, true, zero, ℕ, ◌%◌, ◌*◌, ◌+◌, ◌-◌, ◌==◌,
  ◌^◌,
}
use cxxprogram.Prelude.Int.{ℤ, pos, negsuc}

abbrev pub twepoch : ℕ
twepoch = 1534780800000

abbrev pub max_worker_id : ℕ
max_worker_id = 31

abbrev pub max_datacenter_id : ℕ
max_datacenter_id = 31

abbrev pub sequence_mask : ℕ
sequence_mask = 4095

pub record Snowflake : Type 0 where
  pub last_timestamp : ℤ
  pub workerid : ℕ
  pub datacenterid : ℕ
  pub sequence : ℕ
  -- How many times the clock has been read.
  pub readings : ℕ

unfoldable pub fresh : Snowflake
fresh = record {
  last_timestamp = negsuc 0;
  workerid = 0;
  datacenterid = 0;
  sequence = 0;
  readings = 0;
}

-- `none` is the exception; the numbers are then kept.
unfoldable pub init : Snowflake → ℤ → ℤ → Option Snowflake
init s (negsuc w) d = none
init s (pos w) (negsuc d) = none
init s (pos w) (pos d) =
    if ltb max_worker_id w
    then none
    else if ltb max_datacenter_id d
    then none
    else some (record s { workerid = w; datacenterid = d })

-- The 64 bits of the result; `timestamp - TWEPOCH` is a difference of `int64_t`.
unfoldable pub compose : Snowflake → ℕ → ℕ
compose s timestamp =
    bit_or
      (bit_or
        (bit_or ((timestamp + 2 ^ 64 - twepoch) % 2 ^ 64 * 2 ^ 22 % 2 ^ 64)
          (s.datacenterid * 2 ^ 17))
        (s.workerid * 2 ^ 12))
      s.sequence

-- `timestamp > last`, and `last == timestamp`.
abbrev pub is_after : ℤ → ℕ → Bool
is_after (pos l) t = ltb l t
is_after (negsuc l) t = true

abbrev pub is_at : ℤ → ℕ → Bool
is_at (pos l) t = l == t
is_at (negsuc l) t = false

module _ (clock : ℕ → ℕ) where
  abbrev pub millsecond : Snowflake → ℕ × Snowflake
  millsecond s = (clock s.readings, record s { readings = suc s.readings })

  -- The loop of `wait_next_millis`: `timestamp` is the last reading. `none`: the fuel ran out.
  unfoldable pub wait_loop : ℕ → ℤ → ℕ → Snowflake → Option (ℕ × Snowflake)
  wait_loop zero last timestamp s = none
  wait_loop (suc fuel) last timestamp s = elim (is_after last timestamp) [
    | true ↦ some (timestamp, s)
    | false ↦ let (t, s') = millsecond s in wait_loop fuel last t s'
  ]

  unfoldable pub wait_next_millis : ℕ → ℤ → Snowflake → Option (ℕ × Snowflake)
  unfolding wait_loop
  wait_next_millis fuel last s = let (t, s') = millsecond s in wait_loop fuel last t s'

  -- The end of `next`: the time is noted and the identifier put together.
  unfoldable pub issue : Snowflake → ℕ → ℕ × Snowflake
  issue s timestamp =
      let s' = record s { last_timestamp = pos timestamp } in (compose s' timestamp, s')

  unfoldable pub next : ℕ → Snowflake → Option (ℕ × Snowflake)
  unfolding wait_next_millis issue
  next fuel s =
      let (timestamp, r) = millsecond s in
      let counted = record r { sequence = bit_and (r.sequence + 1) sequence_mask } in
      elim (is_at r.last_timestamp timestamp) [
        | true ↦ elim (counted.sequence == 0) [
          | true ↦
              Option.map (λ (t, w). issue w t)
                (wait_next_millis fuel counted.last_timestamp counted)
          | false ↦ some (issue counted timestamp)
        ]
        | false ↦ some (issue (record r { sequence = 0 }) timestamp)
      ]
