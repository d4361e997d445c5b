-- ===== src/Paging/Walk/Reached.antt =====
-- What the processor translates by the tables of `init_paging` of kernel/src/paging.rs.
use noctis.Common.{ℕ, ◌+◌, ◌-◌, ◌*◌, ◌<◌, ◌≡◌, ◌≢◌, ap, ◌∙◌, arith, Bool, true, false, none, ok}
use noctis.MemLayout.{
  VirtAddr, PhysAddr, virt_to_phys, kernel_code_base_vaddr, liner_mapping_base_vaddr,
  liner_mapping_size, apic_io_start_addr,
}
use noctis.MemLayout.Index.{digit}
use noctis.Paging.Entry.{
  PageTableAttr, PageTableEntry, read_execute_kernel, read_kernel, read_write_kernel,
  read_write_kernel_io,
}
use noctis.Paging.Memory.{Memory}
use noctis.Paging.Table.Huge.{Holds}
use noctis.Paging.Init.{SymbolOffsets}
use noctis.Tables.{IsNet}
use noctis.Tables.Translate.{translate, seen, seen_zero, translate-lookup, granted, seen-Holds}
use noctis.Tables.Direct.{plain_data, translate-direct}
use noctis.Paging.Walk.{lookup, page, Shape}
use noctis.Paging.Walk.Sections.{gate, IsGated, pages_of}
use noctis.Paging.Walk.Space.{
  IsImage, Within, IsWritten, kernel-gate, rodata_base, data_base, rodata_fits, text_fits,
}

-- The `n` pages from `v` on are translated to the frames of the image under them.
abbrev pub AreReached : VirtAddr → Memory → VirtAddr → ℕ → PageTableAttr → Type 0
AreReached root m v n attr =
    (j w : ℕ)
    → j < n
    → page w ≡ page (v + j * 4096)
    → translate liner_mapping_base_vaddr m.nodes root w
      ≡ granted (v - kernel_code_base_vaddr + j * 4096) attr w

-- What the processor translates: the linear window to the first 512 GiB, and outside it only the pages of
-- the sections and of the interrupt controller's registers, each section with its own rights.
pub record IsKernelSpace (s : SymbolOffsets) (root : VirtAddr) (m : Memory) : Type 0 where
  pub cr3 : virt_to_phys root ≡ ok m.cr3
  pub window :
      (p : PhysAddr)
      → p < liner_mapping_size
      → translate liner_mapping_base_vaddr m.nodes root (liner_mapping_base_vaddr + p)
        ≡ plain_data p
  pub text_pages : AreReached root m s.text (pages_of s.text s.text_end) read_execute_kernel
  pub rodata_pages : AreReached root m s.rodata (pages_of s.rodata s.rodata_end) read_kernel
  pub data_pages :
      AreReached root m s.data_start (pages_of s.data_start s.bss_end) read_write_kernel
  pub apic_pages :
      (w : VirtAddr)
      → page w ≡ page apic_io_start_addr
      → translate liner_mapping_base_vaddr m.nodes root w
        ≡ granted apic_io_start_addr read_write_kernel_io w
  pub nothing_else :
      (w : VirtAddr)
      → digit w 4 ≢ 273
      → (Within w s.text (pages_of s.text s.text_end) → ⊥)
      → (Within w s.rodata (pages_of s.rodata s.rodata_end) → ⊥)
      → (Within w s.data_start (pages_of s.data_start s.bss_end) → ⊥)
      → page w ≢ page apic_io_start_addr
      → translate liner_mapping_base_vaddr m.nodes root w ≡ none

module _ (s : SymbolOffsets) (image : IsImage s) (root : VirtAddr) (shape : Shape) (m : Memory)
    (tree : IsNet liner_mapping_base_vaddr root shape m.nodes) (gated : IsGated shape) where
  found :
      (w : VirtAddr)
      → gate (digit w 4) ≡ true
      → translate liner_mapping_base_vaddr m.nodes root w ≡ seen w (lookup m.nodes root w) false
  found w o = translate-lookup tree w (ap (λ (f : ℕ → Bool). f (digit w 4)) gated ∙ o)

  found-Holds :
      (w : VirtAddr) (p : PhysAddr) (attr : PageTableAttr)
      → gate (digit w 4) ≡ true
      → Holds (lookup m.nodes root w) p attr
      → translate liner_mapping_base_vaddr m.nodes root w ≡ granted p attr w
  found-Holds w p attr o h = found w o ∙ seen-Holds (lookup m.nodes root w) p attr w h

  pub reached : IsWritten s root m → IsKernelSpace s root m
  reached done = record {
    cr3 = done.cr3;
    window = λ p h.
        translate-direct liner_mapping_base_vaddr root m.nodes done.window.present done.window.plain
          done.window.frames p h;
    text_pages = λ j w lt at.
        found-Holds w (s.text - kernel_code_base_vaddr + j * 4096) read_execute_kernel
          (kernel-gate s.text (pages_of s.text s.text_end) w j image.base (text_fits s image root)
            lt at)
          (done.text_pages j w lt at);
    rodata_pages = λ j w lt at.
        found-Holds w (s.rodata - kernel_code_base_vaddr + j * 4096) read_kernel
          (kernel-gate s.rodata (pages_of s.rodata s.rodata_end) w j (rodata_base s image root)
            (rodata_fits s image root) lt at)
          (done.rodata_pages j w lt at);
    data_pages = λ j w lt at.
        found-Holds w (s.data_start - kernel_code_base_vaddr + j * 4096) read_write_kernel
          (kernel-gate s.data_start (pages_of s.data_start s.bss_end) w j (data_base s image root)
            image.data_fits lt at)
          (done.data_pages j w lt at);
    apic_pages = λ w at.
        let low : digit w 4 ≡ 0 = omega arith in
        found-Holds w apic_io_start_addr read_write_kernel_io (ap gate low) (done.apic_pages w at);
    nothing_else = λ w o no_text no_rodata no_data no_apic.
        let open_w : gate (digit w 4) ≡ true = ground arith in
        found w open_w
        ∙ ap (λ (e : PageTableEntry). seen w e false)
            (done.nothing_else w o no_text no_rodata no_data no_apic)
        ∙ seen_zero w false;
  }
