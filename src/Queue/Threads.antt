-- ===== src/Queue/Threads.antt =====
-- `push` and `pop` of `WorkStealQueue` in open-coroutine-queue/src/work_steal.rs, as several threads
-- run them at once: one access to the shared queue or to the counter `len` at a time.
pub mod Defs
pub mod Owed
pub mod Alone
pub mod Serial
pub mod Fifo
pub mod Races
mod Examples
