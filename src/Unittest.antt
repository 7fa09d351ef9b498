-- ===== src/Unittest.antt =====
-- The programs under unittest: a queue between threads.
pub mod MessageQueue
pub mod Echo
pub mod Lockfree
pub mod AsioContext
