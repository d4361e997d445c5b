-- ===== src/Loader.antt =====
-- loader/src: the addresses of the early page tables, the array of memory regions, and the extent of
-- the kernel image.
pub mod Address
pub mod Image
pub mod Load
pub mod Paging
pub mod Regions
mod Tests
