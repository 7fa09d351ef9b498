-- ===== src/Net.antt =====
-- engine/net: the byte buffers, the packet parser, the sessions and the server.
pub mod BufferStream
pub mod Queue
pub mod BufferPool
pub mod TcpParser
pub mod Context
pub mod ContextPool
pub mod Server
pub mod Listener
pub mod NetUrl
pub mod EndToEnd
pub mod Session
