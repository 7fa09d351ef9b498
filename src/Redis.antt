-- ===== src/Redis.antt =====
-- engine/redis: commands, replies and the connection to a server.
pub mod Command
pub mod Result
pub mod Connect
