-- ===== src/Loader/Paging/Walk/Tests.antt =====
-- The theorems on the tables of loader/src/paging.rs at a kernel of one page.
use noctis.Common.{inr, ◌≡◌, refl, arith, ok}
use noctis.Paging.Entry as Kernel
use noctis.Tables.{Shape}
use noctis.Loader.Paging.Entry.{read_write_execute_kernel}
use noctis.Loader.Paging.Memory.{Memory}
use noctis.Loader.Paging.Table.{create_mapping}
use noctis.Loader.Paging.Walk.{IsTree, Beside}
use noctis.Tables.Translate.{Remaps}
use noctis.Loader.Paging.Entry.Same.{kernel_attr}
use noctis.Loader.Paging.Walk.Samples.{pages_from, pages-Stock}
use noctis.Loader.Paging.Walk.Mapping.{create_mapping-IsTranslated}
use noctis.Loader.Paging.Walk.Window.{root_shape}

abbrev empty : Memory
empty = record { nodes = λ n i. 0; blocks = pages_from 6 0x10_0000; cr3 = 0x1000 }

empty-IsTree : IsTree 0x9000 6 (root_shape 0x9000) empty
unfolding Kernel.is_present
empty-IsTree = record {
  net = record { top = refl; children = λ n i d r h o p. absurd (ground arith) };
  stock = pages-Stock 0x9000 6 0x10_0000 (omega arith) refl (omega arith);
}

create_mapping-IsTranslated_example :
    (m' : Memory) × (s' : Shape) × (create_mapping 0x9000 0xFFFF_FFFF_8000_0000 0x20_0000 4096
        read_write_execute_kernel empty
      ≡ ok (tt, m'))
    × IsTree 0x9000 0 s' m'
    × (s'.is_open ≡ (root_shape 0x9000).is_open)
    × Beside (root_shape 0x9000) s' empty m'
    × Remaps 0 0x9000
        (root_shape 0x9000)
        (kernel_attr read_write_execute_kernel)
        0xFFFF_FFFF_8000_0000
        0x20_0000
        1
        empty.nodes
        m'.nodes
    × (m'.cr3 ≡ empty.cr3)
create_mapping-IsTranslated_example =
    create_mapping-IsTranslated 0x9000 0 0xFFFF_FFFF_8000_0000 0x20_0000 4096
      read_write_execute_kernel (root_shape 0x9000) empty empty-IsTree refl
      (λ j lt. let first : j ≡ 0 = omega arith in ground arith) refl refl refl (omega arith)
      (inr (omega arith, omega arith)) (omega arith)
