-- ===== src/Lib.antt =====
-- CXXProgram: the engine's core, with what is proved of it.
--
-- engine/net moves packets between machines. A `tcp_listener` accepts connections, a `tcp_session`
-- reads and writes the bytes of one connection on an event loop of the `context_pool`, a `tcp_parser`
-- collects the bytes that it reads in a `buffer_stream` and cuts the packets out of them, each into a
-- `data_buffer` of the `buffer_pool_manager`, and `server_base` hands the packets to a dispatcher and
-- frames those that it sends. engine/utils has what these share, engine/redis a client on hiredis,
-- engine/mongo one on mongocxx, and engine/logger sets spdlog up. Programs under unittest use them.
--
-- Prelude: shared names, Boolean tests, lists over native numbers, integers, masks of bits, decimals.
-- Net/BufferStream: engine/net/buffer_stream.cpp. The array is a list, and an access outside it `none`.
-- Net/Queue: what is taken of moodycamel::ConcurrentQueue, an interface and one instance of it.
-- Net/BufferPool: engine/net/buffer_pool.h. A pool is its queue of free buffers.
-- Net/TcpParser: engine/net/tcp_parser.cpp. The loop has fuel; more fuel than there are bytes is enough,
-- since every packet that is taken has at least one.
-- Net/Context: engine/net/context.cpp, its thread and `stop` one step after another.
-- Net/ContextPool: engine/net/context_pool.cpp. A context is its number.
-- Net/Server: engine/net/server_base.cpp and header.h; Net/Listener has its `listen` and `connect`, with
-- engine/net/tcp_listener.h.
-- Net/Session: engine/net/tcp_session.h as a step function on events, of which asio picks the next.
-- Net/NetUrl: engine/net/neturl.h. The map of parameters is a list.
-- Net/EndToEnd: `send` of one machine with the parser of another, and on to the dispatcher; several
-- sessions that read in turn; and the sessions of a listener and of `connect` in the server's map.
-- Utils/Snowflake: engine/utils/snowflake.hpp, over a clock that is an argument. The waiting loop has
-- fuel; so much is enough as the clock is read before it goes on. The loop of unittest/t_utils/t_utils.cpp
-- takes identifiers one after another.
-- Utils/SpinLock: engine/utils/spin_lock.hpp, the threads as a relation between states.
-- Utils/LockfreeQueue: engine/utils/lockfree_queue.hpp; Utils/LockfreeQueue/Threads has it one access to
-- memory at a time, for threads that take turns in any order.
-- Utils/Singleton: engine/utils/singleton.hpp, the threads as a relation between states.
-- Utils/Tools: the hex dump of engine/utils/tools.hpp, whose loop has fuel, more than there are bytes.
-- Redis/Command, Redis/Result, Redis/Connect: engine/redis, over the calls of hiredis that it makes; the
-- contexts and replies made and freed are counted.
-- Mongo/Client: engine/mongo, over the calls of mongocxx that it makes; the objects made and deleted are
-- counted.
-- Logger: engine/logger, over the registry of spdlog.
-- Unittest/MessageQueue: the queue of unittest/t_utils/t_condition.cpp, its threads as a relation between
-- states, with a mutex and a condition variable.
-- Unittest/Echo: the server and the client of unittest/t_asio, which send packets to each other.
-- Unittest/AsioContext: the contexts of unittest/t_asio/t_asio_context.cpp, which post to each other.
-- Unittest/Lockfree: the count and the numbering of unittest/t_utils/t_lockfree.cpp, over the interface
-- in Net/Queue. The count's loop has fuel, more than the queue has items.
--
-- Not modelled: asio, hiredis, mongocxx, spdlog and the allocator themselves, clocks and random numbers,
-- the copies of other libraries (engine/utils/cmdline.hpp, unittest/t_asio/thread_pool.hpp,
-- engine/sphysx), and the other programs under unittest, which print what a library or the language does.
pub mod Prelude
pub mod Net
pub mod Utils
pub mod Redis
pub mod Mongo
pub mod Logger
pub mod Unittest
