-- ===== src/Interrupt.antt =====
-- kernel/src/idt.rs: the interrupt descriptor table and the handler of interrupts.
pub mod Descriptor
pub mod Entry
pub mod Handler
mod Tests
