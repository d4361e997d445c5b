-- ===== src/Loader/Paging.antt =====
-- loader/src/paging.rs: the page tables under which the loader hands over to the kernel.
pub mod Entry
pub mod Memory
pub mod Table
pub mod Early
pub mod Walk
