-- ===== src/Database/Contract.antt =====
-- The database keeps what the interface Store promises, like the memory store.
pub mod Atomic
pub mod Written
pub mod Apart
pub mod Durable
pub mod Shelf
pub mod Listed
pub mod Reached
pub mod Scoped
