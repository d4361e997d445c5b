-- ===== src/Paging.antt =====
-- kernel/src/paging.rs: page table entries, the four-level tables and their mappings.
pub mod Entry
pub mod Memory
pub mod Table
pub mod Walk
pub mod Init
mod Tests
