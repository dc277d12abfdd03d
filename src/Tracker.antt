-- ===== src/Tracker.antt =====
-- The tracker of ptracker.h and its variants: which tasks are followed, and a pointer for each.
pub mod Task
pub mod Contract
pub mod Stack
pub mod Hash
pub mod Perf
pub mod Default
pub mod Wrappers
pub mod Sample
mod Tests
mod SmpTests
