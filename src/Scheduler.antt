-- ===== src/Scheduler.antt =====
-- open-coroutine-core/src/scheduler: the scheduler of the coroutines of one thread.
pub mod Containers
pub mod Defs
pub mod Steps
pub mod Loops
pub mod Kept
pub mod Held
pub mod Instances
pub mod Parts
pub mod Finish
pub mod Fronts
pub mod Stack
pub mod Runs
pub mod Due
pub mod Sound
pub mod Prepared
pub mod Waiting
pub mod Whole
pub mod Blameless
pub mod Acts
mod Examples
