-- ===== src/Coroutine.antt =====
-- open-coroutine-core/src/coroutine and the enums of open-coroutine-core/src/constants.rs: the states
-- of a coroutine, the operations that change them, and resumption.
pub mod State
pub mod Machine
pub mod Diagram
pub mod History
pub mod Resume
pub mod Local
pub mod Owned
pub mod Alive
pub mod Store
pub mod Balance
pub mod Examples
