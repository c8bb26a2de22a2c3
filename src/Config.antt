-- ===== src/Config.antt =====
-- include/Configuration.h and source/Configuration.cpp: loggers, policies, and which policy manages
-- which logger. The parts:
--   Sets: `LoggerSet`; Changes: `ChangeSet`; Policy: the interface `Policy`; Predicate: its
--   implementation `PredicatePolicy`; Node: `Node`; Store: the ordered map and the member functions.
pub mod Sets
pub mod Changes
pub mod Policy
pub mod Predicate
pub mod Node
pub mod Store
pub mod Arbitration
mod NodeLaws
mod NodeUses
pub mod UpdateLoop
pub mod Keys
mod Parts
mod Places
mod Steal
mod Yield
pub mod InsertPolicy
pub mod RemoveLogger
pub mod RemovePolicy
pub mod Visit
pub mod VisitLaws
pub mod Ownership
pub mod UpdatePolicy
mod Scan
mod Settle
pub mod Rescan
mod Tests
mod VisitTests
pub mod InsertLogger
