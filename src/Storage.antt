-- ===== src/Storage.antt =====
-- The document store (internal/storage): its keys, its contract, and the in-memory backend.
pub mod Keys
pub mod Contract
pub mod Exact
pub mod Program
pub mod Reads
pub mod Table
pub mod Memory
pub mod Provider
mod Tests
