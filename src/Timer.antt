-- ===== src/Timer.antt =====
-- open-coroutine-timer/src/lib.rs: deadlines, and the queue of entries keyed by timestamp.
pub mod Deadline
pub mod Map
pub mod Entry
pub mod Queue
pub mod Order
pub mod Removal
pub mod Examples
