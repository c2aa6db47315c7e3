-- ===== src/Syscall.antt =====
-- open-coroutine-core/src/syscall: the loops and the change of state around a system call.
pub mod Nio
pub mod Sleep
pub mod Poll
pub mod Select
pub mod Vectored
pub mod Gather
pub mod Blocking
pub mod Connect
pub mod Io
pub mod Chain
pub mod Enter
mod Examples
