-- ===== src/MemLayout.antt =====
-- kernel/src/memlayout.rs: the address types and the two windows of the kernel's address space.
-- `PhysAddr`, `VirtAddr` and `MSize` are transparent over a `usize`.
pub mod Index
pub mod Translate
mod Tests
use noctis.Common.{
  ℕ, ◌+◌, ◌-◌, ◌*◌, ◌/◌, ◌^◌, bit_and, Bool, true, false, ◌&&◌, Outcome, ok, panic, unsupported,
  overflow, assert, ◌>>=◌, ◌>>◌, add_usize, sub_usize, mul_usize, not_word, ltb, leb, if◌then◌else◌,
}

abbrev pub PhysAddr : Type 0
PhysAddr = ℕ

abbrev pub VirtAddr : Type 0
VirtAddr = ℕ

abbrev pub MSize : Type 0
MSize = ℕ

-- `a >> k` panics where the shift is not below the width.
abbrev pub shr : ℕ → ℕ → Outcome ℕ
shr a k = if ltb k 64 then ok (a / 2 ^ k) else panic overflow

-- `impl Add<MSize>` and `impl Sub<MSize>`, and the assigning forms.
unfoldable pub add : ℕ → MSize → Outcome ℕ
add self rhs = add_usize self rhs

unfoldable pub sub : ℕ → MSize → Outcome ℕ
sub self rhs = sub_usize self rhs

unfoldable pub nth_level_table_index : VirtAddr → ℕ → Outcome ℕ
nth_level_table_index self level = do
  below ← sub_usize level 1
  bits ← mul_usize below 9
  shift ← add_usize 12 bits
  shifted ← shr self shift
  ok (bit_and shifted 0x1FF)

unfoldable pub pml4_index : VirtAddr → Outcome ℕ
unfolding nth_level_table_index
pml4_index self = nth_level_table_index self 4

unfoldable pub pdpt_index : VirtAddr → Outcome ℕ
unfolding nth_level_table_index
pdpt_index self = nth_level_table_index self 3

unfoldable pub pd_index : VirtAddr → Outcome ℕ
unfolding nth_level_table_index
pd_index self = nth_level_table_index self 2

unfoldable pub pt_index : VirtAddr → Outcome ℕ
unfolding nth_level_table_index
pt_index self = nth_level_table_index self 1

unfoldable pub from_address : ℕ → ℕ → Outcome MSize
from_address start_addr end_addr = do
  assert (leb start_addr end_addr)
  sub_usize end_addr start_addr

unfoldable pub page_align_up : MSize → Outcome MSize
page_align_up self = do sum ← add_usize self 0xFFF; ok (bit_and sum (not_word 0xFFF))

abbrev pub kernel_code_base_vaddr : VirtAddr
kernel_code_base_vaddr = 0xFFFF_FFFF_8000_0000

abbrev pub liner_mapping_base_vaddr : VirtAddr
liner_mapping_base_vaddr = 0xFFFF_8880_0000_0000

abbrev pub liner_mapping_size : MSize
liner_mapping_size = 0x80_0000_0000

abbrev pub max_phys_addr : PhysAddr
max_phys_addr = 0xFF_FFFF_FFFF_FFFF

abbrev pub apic_io_start_addr : ℕ
apic_io_start_addr = 0xFEE0_0000

abbrev pub apic_io_size : MSize
apic_io_size = 0x1000

unfoldable pub phys_to_virt : PhysAddr → Outcome VirtAddr
phys_to_virt phys = do assert (ltb phys max_phys_addr); add_usize phys liner_mapping_base_vaddr

unfoldable pub virt_to_phys : VirtAddr → Outcome PhysAddr
unfolding add
virt_to_phys virt = do
  assert (leb liner_mapping_base_vaddr virt)
  window_end ← add liner_mapping_base_vaddr liner_mapping_size
  if leb liner_mapping_base_vaddr virt && leb virt window_end
      then sub_usize virt liner_mapping_base_vaddr
      else if leb kernel_code_base_vaddr virt
      then sub_usize virt kernel_code_base_vaddr
      else panic unsupported
