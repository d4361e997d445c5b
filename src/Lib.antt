-- ===== src/Lib.antt =====
-- Verification of noctis, a kernel for x86-64 with its loader.
--
-- The kernel takes memory from a linear heap, builds its own four-level page tables, sets up the
-- interrupt table, starts the local APIC timer and runs tasks in turn; one task is an interpreter
-- for a small part of WebAssembly. The timer's interrupt counts ticks, and from the third tick on
-- it calls the scheduler, which switches stacks, registers and `cr3`.
--
-- Files, and the code that they model:
--   Spin          kernel/src/spin.rs: the lock, which also turns interrupts off and on; Cpus has
--                 its instructions as steps of any number of CPUs, whose interrupt flags other
--                 code may change
--   Allocator     kernel/src/allocator.rs: `LinerAllocator`; `bump` is the body of `alloc`
--   MemLayout     kernel/src/memlayout.rs: addresses, table indices, the two windows
--   Paging        kernel/src/paging.rs: Entry (`PageTableEntry`), Memory (the nodes and the heap),
--                 Table (`PageTable`; `map` is `map_range`), Init (`init_paging`);
--                 Walk says what the trees of tables that the code builds translate
--   Tables        trees of four levels of tables, wherever physical memory is seen: the part of
--                 Paging/Walk and of Loader/Paging/Walk that both need; Translate has the walk of
--                 the processor, with huge pages and the rights of every level
--   Wasm          kernel/src/wasm.rs: Syntax (types), Machine (`Runtime`; `call` is `call_func`),
--                 Diamond (`wasm_entry`)
--   Task          kernel/src/task.rs: State (the statics and their locks), Context (`switch_inner`
--                 and `setup_initial_call`), Scheduler (`init`, `switch`, `spawn`), with the
--                 kernels that its calls reach in Scheduler/Reach
--   Timer         kernel/src/timer.rs: `LocalApicTimer`
--   Interrupt     kernel/src/idt.rs: Descriptor (`IdtDescriptor`, `Idt::new`), Entry (the stubs
--                 and `interrupt_handler_common` as instructions on registers and a stack),
--                 Handler (`interrupt_handler` and the calls of `interrupt_handler_common`, with
--                 those of the timer)
--   Gdt           kernel/src/gdt.rs: the descriptors and the table of `GdtWrapper::default`
--   Loader        loader/src: Address (`VirtAddr` of paging.rs), Paging (its entries, its tables
--                 and `init_early_paging`; Walk says what its trees of tables translate), Regions
--                 (`MemoryRegionArray` and `MemoryMapIterator` of memory.rs, and the loop of
--                 main.rs over it), Image (`get_kernel_size` of main.rs), Load (the loop of
--                 `load_to_memory` of main.rs that copies the segments)
--   Common        shared helpers: outcomes of a call, words of 64 bits, bits, lists, integers
--
-- State is passed explicitly. A call returns an `Outcome`: a result, an `Err` of the source, a
-- panic, or no result at all (a spin on a held lock, the halting loop, fuel run out). The build is
-- the debug profile, so that arithmetic that overflows panics. An address is a number below
-- `2 ^ 64`; an `Arc` is the address of its lock; a `Vec` used as a stack is a list with its last
-- element first. One CPU runs, except in Spin/Cpus, and an interrupt comes only between calls.
--
-- Bounds and fuel: the search of the scheduler has a round for each task, after which it is back at
-- its start; a round of the interpreter takes one instruction, and 20 rounds are more than either
-- function of `wasm_entry` takes; the loop over the memory map has a round for each descriptor and
-- one more. The theorems on them state the result, so no limit is reached there.
--
-- Not modelled: ports, the serial line and the log (pure I/O), `align_up` (it calls
-- `align_offset` of core), the loads of the descriptor tables, the heap that the vectors and
-- strings of the interpreter take, with the panic where there is none left, and of the loader
-- the calls of the firmware and the constants of its interface and of the `elf` crate (both are
-- parameters, as is what `Arc::new` and the growing list of tasks allocate). The allocator of
-- the firmware is the list of the blocks that it gives; the stack that the loader's first table
-- lies on is an address.
pub mod Common
pub mod Spin
pub mod Allocator
pub mod MemLayout
pub mod Tables
pub mod Paging
pub mod Wasm
pub mod Task
pub mod Timer
pub mod Interrupt
pub mod Gdt
pub mod Loader
