-- ===== src/Pool.antt =====
-- open-coroutine-core/src/pool: tasks, the pool of workers that run them, and its lifecycle.
pub mod Task
pub mod Defs
pub mod Work
pub mod Size
pub mod Bounds
pub mod Crew
pub mod Lifecycle
pub mod Stopping
pub mod Consumer
pub mod Winding
pub mod Consumed
pub mod Join
pub mod Waiting
mod Examples
mod Trials
