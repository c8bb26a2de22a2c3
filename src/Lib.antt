-- ===== src/Lib.antt =====
-- dynalog: a logging library for C++11. A statement logs through a `Logger`, which routes messages to
-- an `Emitter`. A `Configuration` holds policies by priority, and gives each logger to the highest
-- policy that matches it; the policy writes its emitter and levels into its loggers. Deferred
-- logging moves messages through ring buffers.
--
-- What models what:
--   Base: Boolean tests, lists, partial results and the integers that all files share.
--   Levels: include/util.h (`EnumSet`), include/Core.h (`Level`), include/Logger.h (`Logger`). A set of
--     levels is the list of its bits. Levels/Laws has the theorems.
--   Util: include/util.h (`apply_tuple`, `capture`, `threadindex`), with a theorem in Util/Tuples. A type is
--     a number, and what its values are is a parameter.
--   Ring: include/async/RingBuffer.h. A pointer is an offset into the storage. A cell of the storage
--     is raw, live, or moved from; to read, move from or destroy a cell that holds no object has no
--     result. To write where there is no cell, as in a ring of capacity zero, is undefined too, but
--     is not told apart: the model writes nothing. A theorem on one write asks for room.
--     Ring/Holds has the invariant, which relates a ring to the list of its values, and Ring/Fifo
--     and Ring/Reshape the operations.
--   Cache: include/Buffer.h (`Buffer`), include/Cache.h and source/Cache.cpp (`Cache`). A buffer is a
--     number, and the allocated buffers are a store. Cache/Ownership has the invariant, that every
--     allocated buffer has one owner, and Cache/Operations a theorem for each operation.
--   Message: include/ObjectBuffer.h (`ObjectBuffer`), in Message/Object; include/Message.h (`Message`) with
--     the printing of source/Message.cpp, in Message/Body. A type is a number, and the bytes of a buffer
--     hold an object with its type. The types of the elements of a message, their texts and the sizes
--     of types are parameters.
--   Config: include/Configuration.h and source/Configuration.cpp. A logger and a policy are numbers;
--     the settings of the loggers are a heap that the operations pass on. Config/Sets to
--     Config/Store have the definitions, Config/Arbitration the predicates, and the other files a
--     theorem for each member function.
--   Bootstrap: source/Log.cpp (`BootstrapEmitter`): the first message of an embedded logger, through the
--     configuration and the reflection of the message, in Bootstrap/Handover; the default policy of the
--     global configuration, in Bootstrap/Global.
--   Latency: include/async/LatencyQueue.h. Latency/Parts has the caches, depos and readers with their
--     constructors, Latency/Writer and Latency/Reader what a thread does in a critical section, and
--     Latency/System the step relation of all threads. Latency/Holds has the invariant of a depo,
--     Latency/Insert and Latency/Collect the sections, and Latency/Reachable and Latency/Create the runs.
--     Latency/Abstract has the queue of values that the steps implement, Latency/Books how a state
--     stands for it, Latency/Follows, Latency/Moves and Latency/Simulation the steps, and Latency/Order and
--     Latency/Fifo the order of the values with one depo and one reader. Latency/Signals has the
--     tickets' flags and who owes whom a wake-up, Latency/Wakes and Latency/Alert what becomes of the
--     calls that wait, and Latency/Served how one goes on.
--   Timestamp: include/Timestamp.h and source/Timestamp.cpp. Timestamp/Atoms takes a time apart and puts it
--     together, Timestamp/Stream and Timestamp/Format have the functors that print, and Timestamp/Stamps
--     the objects that a statement logs. What the C library does with a calendar is a parameter.
--   Handle: include/HandleEmitter.h and source/HandleEmitter.cpp: an emitter that writes to a file
--     descriptor through a buffer of fixed size. The system call is a parameter.
--   Logging: `Logger::log` of include/Logger.h with what the macros of include/Log.h make it build, as far
--     as the line that a `HandleEmitter` hands to the system call, in Logging/Lines.
--   Async: include/async/Replicated.h and include/async/Synchronized.h, in Async/Replicated;
--     include/async/Flush.h and source/async/Flush.cpp, in Async/Flush; include/async/Emitter.h and
--     source/async/Emitter.cpp, in Async/Dispatcher, which serves actions from the latency queue,
--     with theorems in Async/Workers and Async/DispatcherLaws.
--
-- The interface of the parts: Config/Policy is the record of what a `Configuration` relies on in a
-- policy, with its laws; Config/Predicate fills it for `PredicatePolicy`. Where the program iterates
-- a hash set, the model goes through a list, and the theorems hold for every order of it.
--
-- Loops: those of the ring run a number of rounds that is fixed at their start. `clear` and `reshape`
-- take an element from the ring in each round, so its size is enough rounds. The others go through a
-- list; that of `collect` has the number of caches as fuel, which is enough. That of `insert` has its
-- rounds as fuel; two more than it waits are enough. How its waits end is an argument. `BootstrapEmitter` calls
-- itself, and has fuel.
--
-- Machine integers: sizes of a ring are taken modulo 2 ^ 64, and a capacity is below that.
-- Priorities are integers, which the program only compares.
--
-- Locks: a member function of `Configuration` holds its mutex throughout, and is one step. A read of
-- a logger's emitter on the fast path is a read of the heap between two steps. The latency queue holds
-- the locks of a cache and of a depo; a step is what is done under them, and may come in any order.
--
-- Not modelled: `Slots::remove` (called from no compiled code), memory allocation, input and output,
-- `Dispatcher::flush`, and the condition variable of a `Ticket`, which only lets a call that waits look
-- at its flag.
pub mod Base
pub mod Levels
pub mod Ring
pub mod Config
pub mod Async
pub mod Bootstrap
pub mod Cache
pub mod Handle
pub mod Latency
pub mod Logging
pub mod Message
pub mod Timestamp
pub mod Util
