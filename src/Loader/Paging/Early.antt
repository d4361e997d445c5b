-- ===== src/Loader/Paging/Early.antt =====
-- `init_early_paging` of loader/src/paging.rs. `local` is the address of the variable `page_table`, on
-- the stack of the loader.
use noctis.Common.{ℕ, ok, ◌==◌, if◌then◌else◌}
use noctis.Loader.Address as Address
use noctis.Loader.Address.{VirtAddr, align_up_to_page}
use noctis.Loader.Paging.Entry.{PhysAddr, read_write_execute_kernel, read_write_kernel_1gib}
use noctis.Loader.Paging.Memory.{M, lift, unwrap, ◌>>=◌, ◌>>◌}
use noctis.Loader.Paging.Table.{create_mapping}

abbrev pub kernel_direct_start : ℕ
kernel_direct_start = 0xFFFF_8880_0000_0000

abbrev pub kernel_direct_size : ℕ
kernel_direct_size = 0x80_0000_0000

unfoldable pub read_cr3 : M PhysAddr
read_cr3 m = ok (m.cr3, m)

unfoldable pub write_cr3 : PhysAddr → M (Unit {0})
write_cr3 value m = ok (tt, record m { cr3 = value })

-- `ptr::read` copies the table of the firmware into the variable.
unfoldable pub get_page_table_from_cr3 : PhysAddr → M (Unit {0})
unfolding read_cr3
get_page_table_from_cr3 local = do
  pml4 ← read_cr3
  λ m. ok (tt, record m { nodes = λ n i. if n == local then m.nodes pml4 i else m.nodes n i })

unfoldable pub init_early_paging : PhysAddr → PhysAddr → VirtAddr → ℕ → M (Unit {0})
unfolding get_page_table_from_cr3 create_mapping align_up_to_page Address.new write_cr3
init_early_paging local kernel_start_phys kernel_start_virt size = do
  get_page_table_from_cr3 local
  unwrap (
      create_mapping local (Address.new kernel_direct_start) 0 kernel_direct_size
        read_write_kernel_1gib)
  rounded ← lift (align_up_to_page size)
  unwrap
      (create_mapping local kernel_start_virt kernel_start_phys rounded read_write_execute_kernel)
  write_cr3 local
