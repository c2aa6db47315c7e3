-- ===== src/Net.antt =====
-- open-coroutine-core/src/net: the configuration, the choice of an event loop, and the selector.
pub mod Config
pub mod Loops
pub mod Skips
pub mod Waits
pub mod EventLoop
pub mod Join
pub mod Comes
pub mod Exit
pub mod Exited
pub mod Leaving
pub mod Rounds
pub mod Selector
pub mod Interests
pub mod Agreement
pub mod Shared
pub mod Forgets
pub mod Registry
mod Examples
mod Trials
