-- ===== src/Loader/Paging/Entry/Same.antt =====
-- The entries of the loader and those of kernel/src/paging.rs are the same words.
use noctis.Common.{◌≡◌, refl}
use noctis.Paging.Entry as Kernel
use noctis.Loader.Paging.Entry.{
  PhysAddr, PageTableAttr, not_present, read_execute_kernel, read_kernel, read_write_execute_kernel,
  read_write_kernel, read_write_kernel_1gib, read_write_kernel_io, attr_value, PageTableEntry,
  is_present, paddr, set_entry,
}

-- The attribute of the kernel with the same name.
abbrev pub kernel_attr : PageTableAttr → Kernel.PageTableAttr
kernel_attr not_present = Kernel.not_present
kernel_attr read_execute_kernel = Kernel.read_execute_kernel
kernel_attr read_kernel = Kernel.read_kernel
kernel_attr read_write_execute_kernel = Kernel.read_write_execute_kernel
kernel_attr read_write_kernel = Kernel.read_write_kernel
kernel_attr read_write_kernel_1gib = Kernel.read_write_kernel_1gib
kernel_attr read_write_kernel_io = Kernel.read_write_kernel_io

pub attr_value-eq : (a : PageTableAttr) → attr_value a ≡ Kernel.attr_value (kernel_attr a)
unfolding attr_value Kernel.attr_value
attr_value-eq not_present = refl
attr_value-eq a = refl

pub is_present-eq : (e : PageTableEntry) → is_present e ≡ Kernel.is_present e
unfolding is_present Kernel.is_present
is_present-eq e = refl

pub paddr-eq : (e : PageTableEntry) → paddr e ≡ Kernel.paddr e
unfolding paddr Kernel.paddr
paddr-eq e = refl

-- `set_entry` of the loader gives the entry, or the refusal, that the kernel's gives for the attribute
-- of the same name.
pub set_entry-eq :
    (p : PhysAddr) (a : PageTableAttr) → set_entry p a ≡ Kernel.set_entry p (kernel_attr a)
unfolding set_entry Kernel.set_entry
set_entry-eq p a = rw attr_value-eq refl
