-- ===== src/Utils.antt =====
-- engine/utils: identifiers, the lock, the ring and the dump of bytes.
pub mod Snowflake
pub mod SpinLock
pub mod LockfreeQueue
pub mod Tools
pub mod Singleton
