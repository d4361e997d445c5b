-- ===== src/Wasm.antt =====
-- kernel/src/wasm.rs: the interpreter for a small part of WebAssembly, and the program it runs. What its
-- vectors and strings allocate is left out, and with it the panic where the heap is full.
pub mod Syntax
pub mod Machine
pub mod Diamond
mod Tests
