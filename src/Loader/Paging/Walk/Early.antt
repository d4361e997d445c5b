-- ===== src/Loader/Paging/Walk/Early.antt =====
-- `init_early_paging` of loader/src/paging.rs: the linear window and the kernel image, beside what the
-- firmware has mapped.
use noctis.Common.{ℕ, ◌+◌, ◌*◌, ◌/◌, ◌<◌, ◌≡◌, ◌≢◌, true, none}
use noctis.MemLayout.Index.{digit}
use noctis.Paging.Entry as Kernel
use noctis.Tables.{page}
use noctis.Tables.Translate.{translate, granted}
use noctis.Tables.Direct.{plain_data}
use noctis.Loader.Address.{VirtAddr}
use noctis.Loader.Paging.Entry.{PhysAddr, read_write_execute_kernel}
use noctis.Loader.Paging.Memory.{Memory}
use noctis.Loader.Paging.Early.{kernel_direct_start, kernel_direct_size}
use noctis.Loader.Paging.Walk.{Lacks}
use noctis.Loader.Paging.Walk.Window.{gate}

abbrev pub pages_of : ℕ → ℕ
pages_of size = (size + 4095) / 4096

-- What the loader has translated when it starts the kernel.
pub record IsEarly (local p v size : ℕ) (m m' : Memory) : Type 0 where
  pub cr3 : m'.cr3 ≡ local
  pub window :
      (q : PhysAddr)
      → q < kernel_direct_size
      → translate 0 m'.nodes local (kernel_direct_start + q) ≡ plain_data q
  pub image :
      (j w : ℕ)
      → j < pages_of size
      → page w ≡ page (v + j * 4096)
      → translate 0 m'.nodes local w ≡ granted (p + j * 4096) Kernel.read_write_execute_kernel w
  pub nothing :
      (w : VirtAddr)
      → gate (digit w 4) ≡ true
      → ((j : ℕ) → j < pages_of size → page w ≢ page (v + j * 4096))
      → translate 0 m'.nodes local w ≡ none
  pub firmware :
      (i : ℕ)
      → i < 256
      → Kernel.is_present (m.nodes m.cr3 i) ≡ true
      → m'.nodes local i ≡ m.nodes m.cr3 i
  pub others : (x j : ℕ) → Lacks x m.blocks → x ≢ local → m'.nodes x j ≡ m.nodes x j
