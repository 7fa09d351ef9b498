-- ===== src/Logger.antt =====
-- engine/logger/logger.cpp: `default_init`. spdlog is not part of the repository: `Spdlog` has the
-- registry of loggers that the code uses. The thread pool of an asynchronous logger is a shared
-- pointer, of which `async_logger` keeps a weak one; the others are counted.
pub mod Init
mod Tests
use cxxprogram.Prelude.{
  Bool, List, Option, [], if◌then◌else◌, ltb, none, some, ℕ, ◌++◌, ◌-◌, ◌∷◌, ◌≡◌,
}
use cxxprogram.Prelude.Int.{ℤ, pos, negsuc}

-- A file for each day, with the time of its change, or the console.
pub data Sink : Type 0 where
  daily_file : List ℕ → ℕ → ℕ → Sink
  console : Sink

-- How a logger writes: itself, or by a pool with so many owners.
pub data Delivery : Type 0 where
  sync : Delivery
  async_with : ℕ → Delivery

pub record Logger : Type 0 where
  pub name : List ℕ
  pub sinks : List Sink
  pub delivery : Delivery
  pub flush_level : ℕ
  pub level : ℕ
  pub pattern : List ℕ

pub record Spdlog : Type 1 where
  pub Registry : Type 0
  pub get : Registry → List ℕ → Option Logger
  pub set_default_logger : Registry → Logger → Registry
  -- The period in seconds.
  pub flush_every : Registry → ℕ → Registry
  -- The default logger is registered under its name, and the period changes no logger.
  pub get-set_default_logger :
      (r : Registry) (l : Logger) → get (set_default_logger r l) l.name ≡ some l
  pub get-flush_every :
      (r : Registry) (n : ℕ) (name : List ℕ) → get (flush_every r n) name ≡ get r name

-- `spdlog::level`.
abbrev pub warn : ℕ
warn = 3

abbrev pub off : ℕ
off = 6

-- `level < 0 || level > off`.
abbrev pub level_of : ℤ → ℕ
level_of (pos n) = if ltb off n then 0 else n
level_of (negsuc n) = 0

-- ".log".
unfoldable pub sinks_of : List ℕ → List ℕ → Bool → List Sink
sinks_of path name enable_console =
    daily_file (path ++ (name ++ (46 ∷ 108 ∷ 111 ∷ 103 ∷ []))) 23 59
    ∷ (if enable_console then console ∷ [] else [])

-- The end of the block in which `thread_p` stands: the pool loses an owner.
abbrev pub leave_block : Delivery → Delivery
leave_block sync = sync
leave_block (async_with n) = async_with (n - 1)

-- `thread_p` is the one owner of the new pool.
unfoldable pub delivery_of : Bool → Delivery
delivery_of async = if async then leave_block (async_with 1) else sync

module _ (S : Spdlog) where
  open S use {Registry, get, set_default_logger, flush_every}

  unfoldable pub default_init : Registry → List ℕ → List ℕ → Bool → Bool → ℤ → List ℕ → Registry
  unfolding sinks_of delivery_of
  default_init r path name enable_console async level pattern = elim (get r name) [
    | some l ↦ r
    | none ↦
        flush_every
          (set_default_logger r (record {
            name = name;
            sinks = sinks_of path name enable_console;
            delivery = delivery_of async;
            flush_level = warn;
            level = level_of level;
            pattern = pattern;
          }))
          1
  ]
