-- ===== src/Paging/Walk/Tests.antt =====
-- A mapping of one page by `create_mapping` of kernel/src/paging.rs, from an empty table, and
-- `init_paging` on a small image.
use noctis.Common.{◌+◌, ◌*◌, ◌≡◌, refl, arith, true, false, ok, ◌==◌, if◌then◌else◌}
use noctis.MemLayout.{VirtAddr, kernel_code_base_vaddr, liner_mapping_base_vaddr}
use noctis.Paging.Entry.{is_present, read_write_kernel}
use noctis.Paging.Memory.{Memory}
use noctis.Paging.Table.{page_size, create_mapping, div_ceil}
use noctis.Paging.Init.{SymbolOffsets, init_paging}
use noctis.Paging.Walk.Window.{HasRoom}
use noctis.Paging.Walk.Space.{IsImage, tables_for}
use noctis.Paging.Walk.Reached.{IsKernelSpace}
use noctis.Paging.Walk.Boot.{init_paging_lem}
use noctis.Paging.Walk.{Shape, IsTree}
use noctis.Paging.Walk.Entries.{Beside}
use noctis.Tables.Translate.{Remaps}
use noctis.Paging.Walk.Mapping.{create_mapping_lem}

abbrev root : VirtAddr
root = liner_mapping_base_vaddr + 0x1000

-- An empty table, and a heap of twelve pages.
abbrev memory : Memory
memory = record {
  heap = record {
    locked = false;
    value = record {
      start = liner_mapping_base_vaddr + 0x2000;
      end = liner_mapping_base_vaddr + 0xE000;
      next = liner_mapping_base_vaddr + 0x2000;
    };
  };
  cpu = record { interrupts = true };
  nodes = λ n i. 0;
  cr3 = 0x1000;
}

abbrev shape : Shape
shape = record { rank = λ x. if x == root then 4 else 0; owner = λ x. (0, 0); is_open = λ i. true }

not_zero : is_present 0 ≡ true → ⊥
unfolding is_present
not_zero e = cc

memory-IsTree : IsTree root (0 + 3 + 3 * div_ceil 4096 page_size) shape memory
memory-IsTree = record {
  top = refl;
  children = λ n i d r h o p. absurd (not_zero p);
  used = λ n r. ground arith;
  heap_free = refl;
  heap = record {
    begins = omega arith;
    within = omega arith;
    fits = omega arith;
    not_null = omega arith;
  };
  low = omega arith;
  high = omega arith;
  left = omega arith;
}

create_mapping_lem_example :
    (m' : Memory) × (s' : Shape) × (create_mapping root 0x40_0000 0x20_0000 4096 read_write_kernel
        memory
      ≡ ok (tt, m'))
    × IsTree root 0 s' m'
    × (s'.is_open ≡ shape.is_open)
    × Beside shape s' memory m'
    × Remaps liner_mapping_base_vaddr root shape read_write_kernel 0x40_0000 0x20_0000
        (div_ceil 4096 page_size)
        memory.nodes
        m'.nodes
    × (m'.cr3 ≡ memory.cr3)
create_mapping_lem_example =
    create_mapping_lem root 0 0x40_0000 0x20_0000 4096 read_write_kernel shape memory memory-IsTree
      refl (λ j h. refl) refl (omega arith) (omega arith) (omega arith) (omega arith) (omega arith)

-- An image with two pages of code, one of constants and two of data, and a heap for its tables.
abbrev symbols : SymbolOffsets
symbols = record {
  text = kernel_code_base_vaddr + 0x20_0000;
  text_end = kernel_code_base_vaddr + 0x20_1800;
  rodata = kernel_code_base_vaddr + 0x20_2000;
  rodata_end = kernel_code_base_vaddr + 0x20_3000;
  data_start = kernel_code_base_vaddr + 0x20_3000;
  bss_end = kernel_code_base_vaddr + 0x20_5000;
}

abbrev booting : Memory
booting = record {
  heap = record {
    locked = false;
    value = record {
      start = liner_mapping_base_vaddr + 0x2000;
      end = liner_mapping_base_vaddr + 0x4_2000;
      next = liner_mapping_base_vaddr + 0x2000;
    };
  };
  cpu = record { interrupts = true };
  nodes = λ n i. 0;
  cr3 = 0x1000;
}

symbols-IsImage : IsImage symbols
symbols-IsImage = record {
  base = omega arith;
  text_order = omega arith;
  rodata_order = omega arith;
  data_order = omega arith;
  text_page = refl;
  rodata_page = refl;
  data_page = refl;
  text_apart = omega arith;
  rodata_apart = omega arith;
  data_fits = omega arith;
}

booting-HasRoom : HasRoom (tables_for symbols) booting
booting-HasRoom = record {
  unlocked = refl;
  heap = record {
    begins = omega arith;
    within = omega arith;
    fits = omega arith;
    not_null = omega arith;
  };
  low = omega arith;
  high = omega arith;
  left = omega arith;
}

init_paging_lem_example :
    (root : VirtAddr) × (m' : Memory) × (init_paging symbols booting ≡ ok (root, m'))
    × IsKernelSpace symbols root m'
init_paging_lem_example = init_paging_lem symbols booting symbols-IsImage booting-HasRoom
