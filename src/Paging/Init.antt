-- ===== src/Paging/Init.antt =====
-- `init_paging` of kernel/src/paging.rs: the mappings that the kernel runs under.
use noctis.Common.{ℕ, Outcome}
use noctis.MemLayout.{
  VirtAddr, PhysAddr, from_address, virt_to_phys, liner_mapping_base_vaddr, liner_mapping_size,
  apic_io_start_addr, apic_io_size,
}
use noctis.Paging.Entry.{
  PageTableAttr, read_execute_kernel, read_kernel, read_write_kernel, read_write_kernel_1gib,
  read_write_kernel_io,
}
use noctis.Paging.Memory.{M, pure, lift, unwrap, ◌>>=◌, ◌>>◌, box_node}
use noctis.Paging.Table.{create_mapping}
use noctis.Common as Common

-- The symbols of kernel/kernel.ld that `init_paging` reads.
pub record SymbolOffsets : Type 0 where
  pub text : VirtAddr
  pub text_end : VirtAddr
  pub rodata : VirtAddr
  pub rodata_end : VirtAddr
  pub data_start : VirtAddr
  pub bss_end : VirtAddr

-- `x86::write_cr3`
unfoldable pub write_cr3 : PhysAddr → M (Unit {0})
write_cr3 phys m = Common.ok (tt, record m { cr3 = phys })

-- One section of the image, mapped to the physical pages that the loader put it in.
unfoldable pub map_section : VirtAddr → VirtAddr → VirtAddr → PageTableAttr → M (Unit {0})
unfolding virt_to_phys from_address create_mapping
map_section page_table start end attr = do
  phys ← lift (virt_to_phys start)
  size ← lift (from_address start end)
  unwrap (create_mapping page_table start phys size attr)

unfoldable pub init_paging : SymbolOffsets → M VirtAddr
unfolding box_node map_section create_mapping virt_to_phys write_cr3
init_paging s = do
  page_table ← box_node
  unwrap (
      create_mapping page_table liner_mapping_base_vaddr 0 liner_mapping_size
        read_write_kernel_1gib)
  map_section page_table s.text s.text_end read_execute_kernel
  map_section page_table s.rodata s.rodata_end read_kernel
  map_section page_table s.data_start s.bss_end read_write_kernel
  unwrap (
      create_mapping page_table apic_io_start_addr apic_io_start_addr apic_io_size
        read_write_kernel_io)
  phys ← lift (virt_to_phys page_table)
  write_cr3 phys
  pure page_table
