-- ===== src/Client.antt =====
-- The client module of client/: it samples the performance counters of the tracked tasks.
pub mod Pmu
pub mod Params
pub mod Pmi
pub mod Vector
pub mod Buffering
pub mod Loading
pub mod Attach
pub mod Processes
pub mod Switch
pub mod Sampling
mod Tests
mod LoadingTests
mod BufferTests
mod SystemTests
mod ForkTests
mod SamplingTests
