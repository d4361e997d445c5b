-- ===== src/Paging/Tests.antt =====
-- The theorems on the entries of kernel/src/paging.rs at a page of the kernel.
use noctis.Common.{
  ℕ, ◌+◌, ◌%◌, ◌^◌, ◌≤◌, ◌<◌, ◌≡◌, ◌≢◌, refl, arith, true, false, ◌&&◌, ◌==◌, if◌then◌else◌, ok,
  err, not_page_aligned,
}
use noctis.Paging.Entry.{
  PageTableEntry, read_kernel, read_write_kernel_1gib, set_entry, paddr, is_present,
}
use noctis.Paging.Memory.{Memory, box_node}
use noctis.Paging.Table.{duplicate_kernel, map_huge}
use noctis.Paging.Table.Duplicate.{duplicate_kernel_lem}
use noctis.Paging.Table.Huge.{IsMapped, map_huge-IsMapped}
use noctis.Paging.Entry.Fields.{rights, decode, set_entry_lem}

read_only_page : set_entry 0x20_0000 read_kernel ≡ ok (2 ^ 63 + 0x20_0001)
unfolding set_entry
read_only_page = refl

set_entry_lem_example :
    (0x20_0000 % 4096 ≡ 0
      → 0x20_0000 < 2 ^ 63
      → (e : PageTableEntry) × (set_entry 0x20_0000 read_kernel ≡ ok e)
        × (paddr e ≡ 0x20_0000)
        × (decode e ≡ rights read_kernel))
    × (0x20_0000 % 4096 ≢ 0 → set_entry 0x20_0000 read_kernel ≡ err not_page_aligned)
    × (2 ^ 63 ≤ 0x20_0000 → set_entry 0x20_0000 read_kernel ≡ err not_page_aligned)
set_entry_lem_example = set_entry_lem 0x20_0000 read_kernel (omega arith)

-- A heap of two pages, and a node at 0x5000 with one entry that is present.
abbrev memory : Memory
memory = record {
  heap = record {
    locked = false;
    value = record { start = 0x10_0000; end = 0x10_2000; next = 0x10_0000 };
  };
  cpu = record { interrupts = true };
  nodes = λ node i. if node == 0x5000 && i == 511 then 0x6003 else 0;
  cr3 = 0x5000;
}

abbrev boxed : Memory
boxed = record memory {
  heap = record {
    locked = false;
    value = record { start = 0x10_0000; end = 0x10_2000; next = 0x10_1000 };
  };
  nodes = λ n i. if n == 0x10_0000 then 0 else memory.nodes n i;
}

box_node_memory : box_node memory ≡ ok (0x10_0000, boxed)
unfolding box_node
box_node_memory = refl

duplicate_kernel_lem_example :
    (m' : Memory) × (duplicate_kernel 0x5000 memory ≡ ok (0x10_0000, m'))
    × ((j : ℕ)
        → j < 512
        → m'.nodes 0x10_0000 j
          ≡ (if is_present (memory.nodes 0x5000 j) then memory.nodes 0x5000 j else 0))
    × ((n j : ℕ) → n ≢ 0x10_0000 → m'.nodes n j ≡ memory.nodes n j)
    × (m'.heap ≡ boxed.heap)
    × (m'.cr3 ≡ memory.cr3)
duplicate_kernel_lem_example =
    duplicate_kernel_lem 0x5000 0x10_0000 memory boxed box_node_memory (omega arith)

-- The linear window of the kernel: 512 GiB, from entry 0 of its node on.
map_huge-IsMapped_example :
    (m' : Memory) × (map_huge 512 0 0x6000 0 0 read_write_kernel_1gib memory ≡ ok (tt, m'))
    × IsMapped 0x6000 0 0 read_write_kernel_1gib 0 512 memory m'
map_huge-IsMapped_example =
    map_huge-IsMapped 512 0x6000 0 0 read_write_kernel_1gib memory (omega arith) refl (omega arith)
