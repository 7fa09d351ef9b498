-- ===== src/Net/EndToEnd.antt =====
-- From `server_base::send` on one machine (engine/net/server_base.cpp) to the parser of another
-- (engine/net/tcp_parser.cpp).
pub mod Stream
pub mod Dispatch
pub mod Sessions
pub mod Identifiers
pub mod Routing
mod Tests
