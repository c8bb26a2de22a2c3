-- ===== src/Latency.antt =====
-- include/async/LatencyQueue.h: `LatencyQueue`. The parts: Parts: its data and constructors; Writer:
-- `insert`; Reader: `remove` and `collect`; System: what the threads do, a critical section at a time;
-- Signals: the tickets of those that wait; Abstract: the queue of values that all this implements.
pub mod Parts
pub mod Writer
pub mod Reader
pub mod Holds
pub mod Refill
pub mod Tickets
pub mod Insert
pub mod Loop
pub mod Collect
pub mod Drain
pub mod Indices
pub mod System
pub mod Signals
pub mod Abstract
pub mod Books
pub mod Follows
pub mod Moves
pub mod Simulation
pub mod Reachable
pub mod Create
pub mod Order
pub mod Fifo
pub mod Faults
pub mod Wakes
pub mod Alert
pub mod Served
pub mod Visits
pub mod Tests
pub mod OrderTests
pub mod ServedTests
