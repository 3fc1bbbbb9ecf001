-- ===== src/Lib.antt =====
-- A verification library for KV-Database, a key-value server in C++ that keeps its data in memory and
-- in two files.
--
-- The program. `Server` (src/Server) owns all parts. Its accept thread asks the rate limiter
-- (src/Limit), makes a session (src/UserSession) and registers the socket with the event loop
-- (src/Networking). Its event loop thread closes the sockets of expired sessions and hands each ready
-- connection to the thread pool (src/Worker), whose job reads bytes, and once the connection's buffer
-- holds a newline runs the command in it on the map (src/RAM) and logs a write (src/Storage). A
-- scheduler saves the map now and then and empties the log; a start loads the snapshot and the log.
--
-- The model. Each file models the code that its first comment names, with the source's names in this
-- language's spelling (`isAllowedGlobal` is `is_allowed_global`).
--   Prelude      shared names, byte strings, tests, lists over the native numbers, integers
--   Result       exceptions and faults as values
--   HashMap      src/RAM/HashMap.h, HashMap.cpp; Chain, Map and Entries relate the table to a map from
--                keys to values, Contents is the quotient of the maps that read alike, Hash is about
--                the hash function; Memory has the nodes and pointers in a memory, with one child for
--                each loop, Refinement to relate it to the lists, and Life from the constructor to the
--                destructor
--   Stream       what is used of C++ streams: `std::getline` and `iss >> word`
--   Persistence  src/Storage/Persistence.h, Persistence.cpp; Records says what a log means, Log and
--                Recovery read files back, Durable, Snapshot and Reload are about the single
--                operations, Lifecycle is the step relation of starts, writes, snapshots and stops,
--                Races has interleavings of two threads, Workers any interleaving of the writes of
--                many workers
--   Limiter      src/Limit/Limiter.h, Limiter.cpp; Bucket, Window, Quota and Trace
--   UserSession  src/UserSession/UserSession.h, UserSession.cpp; Table and Expiry
--   EventLoop    src/Networking/EventLoop.h as an interface with laws; Epoll, the implementation of
--                src/Networking/EpollEventLoop.cpp over the kernel's calls, with OneShot about its reports
--                and the jobs made of them, and Iocp, that of
--                src/Networking/IocpEventLoop.h, IocpEventLoop.cpp over a completion port, which are
--                parameters
--   Sockets      src/Networking/NetworkTypes.h, its POSIX and its Windows half
--   Server       src/Server/Server.h, Server.cpp and src/UserSession/Connection.h: the handler of
--                messages; Start has the constructor and `start`, Loop the rounds of the threads;
--                Command, Handler, Fragments and Protocol are about what the handler does, Writes,
--                Responses and Answers about what its clients see, Commits about its critical
--                sections; Interleaved has these on many workers, one section at a time, with Keys,
--                Consistent and Crash; Rounds is about the other threads, Stable about what any
--                part keeps, Stale about a job that outlives its connection, Entries and Links
--                about the map of connections
--   Worker       src/Worker: ThreadPool is ThreadPool.h, ThreadPool.cpp, with Queue, Wakeups,
--                Shutdown and Draining; SnapshotScheduler and UserSessionBackgroundWorker are the loops
--                of the files of these names, Background is what they share: the thread, its waits
--                and its destructor, with Ends
--   System       the threads of src/Server and src/Worker as a step relation over one server, in any
--                order; Kept and Sound are about what all of them keep, Served about the clients, Life
--                about starts and stops of the process
--   Program      src/main.cpp: how signals and standard input ask for a stop
--   Tests        the theorems on sample data
--
-- State is passed explicitly. The fields of a class are a record, a method is a function from the old
-- state to the new one, and a critical section is one step. What the operating system answers
-- (`recv`, `accept`, the clock, the success of opening a file) is an argument of the step. Objects that
-- are shared by `shared_ptr` are indices into a list of objects.
--
-- Bounds. The loops over lists of nodes, keys, lines and events are structural recursion. On fuel are
-- the loop of a worker of the thread pool, for which more fuel than waiting jobs is enough, and the loops
-- along pointers of HashMap/Memory, for which more fuel than the map has nodes is enough. The
-- hash is computed modulo 2 ^ 64 with signed characters. The window's counter, an `int` in the program,
-- and the clock readings are unbounded numbers.
--
-- Not modelled: rounding of `double`, which the limiter's fixed-point numbers replace; which
-- address an allocation returns; data races on the connection map, which the program does not lock;
-- what lies between the critical sections of one job, apart from those of a command in
-- Persistence/Races and Server/Interleaved; bytes that are lost between a flush and the disk;
-- console output; the joins of the server's and the pool's threads; the names that
-- src/Networking/NetworkTypes.h gives to the calls of two platforms; the choice of the event loop
-- at compile time in src/Networking/EventLoopFactory.h.
pub mod Prelude
pub mod Result
pub mod HashMap
pub mod Stream
pub mod Persistence
pub mod Limiter
pub mod UserSession
pub mod EventLoop
pub mod Server
pub mod Worker
pub mod Sockets
pub mod Program
pub mod System
pub mod Tests
