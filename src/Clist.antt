-- ===== src/Clist.antt =====
-- The circular lists of client/clist/.
pub mod Contract
pub mod Default
pub mod Carray
pub mod Nbblist
pub mod Instances
mod Tests
