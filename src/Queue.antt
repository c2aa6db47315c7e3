-- ===== src/Queue.antt =====
-- open-coroutine-queue: the random numbers, the global queue and the local queues that steal.
pub mod Rand
pub mod Deques
pub mod Steal
pub mod Moves
pub mod Conserve
pub mod Counted
pub mod Threads
pub mod Instances
mod Examples
