-- ===== src/Facade.antt =====
-- The crates open-coroutine and open-coroutine-hooks, through which a program uses the core.
pub mod Init
pub mod Task
mod Examples
