-- ===== src/Async.antt =====
-- The small parts of include/async and source/async. Replicated: the choice of a copy of an object;
-- Flush: the count of tokens; Dispatcher: the threads that emit deferred messages.
pub mod Replicated
pub mod Flush
pub mod FlushLaws
pub mod Dispatcher
pub mod Workers
pub mod DispatcherLaws
pub mod Tests
