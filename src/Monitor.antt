-- ===== src/Monitor.antt =====
-- open-coroutine-core/src/monitor: the watch over coroutines that run too long.
pub mod Defs
pub mod Signals
pub mod Leaks
mod Examples
