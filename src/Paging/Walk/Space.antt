-- ===== src/Paging/Walk/Space.antt =====
-- What the tables of `init_paging` of kernel/src/paging.rs translate, from its mappings one by one.
use noctis.Common.{
  ℕ, ◌+◌, ◌-◌, ◌*◌, ◌%◌, ◌≤◌, ◌<◌, ◌≡◌, ◌≢◌, ◌⊎◌, inl, inr, ap, ◌∙◌, arith, true, ok, word,
}
use noctis.MemLayout.{VirtAddr, PhysAddr, virt_to_phys, kernel_code_base_vaddr, apic_io_start_addr}
use noctis.MemLayout.Index.{digit}
use noctis.Paging.Entry.{read_execute_kernel, read_kernel, read_write_kernel, read_write_kernel_io}
use noctis.Paging.Memory.{Memory}
use noctis.Paging.Table.Huge.{Holds}
use noctis.Paging.Init.{SymbolOffsets}
use noctis.Paging.Walk.{lookup, page, Shape}
use noctis.Paging.Walk.Pages.{IsTranslated}
use noctis.Paging.Walk.Sections.{gate, pages_of}
use noctis.Paging.Walk.Window.{IsWindow, root_shape}

-- The sections of the image lie in order, on page boundaries, in the window of the kernel image.
pub record IsImage (s : SymbolOffsets) : Type 0 where
  pub base : kernel_code_base_vaddr ≤ s.text
  pub text_order : s.text ≤ s.text_end
  pub rodata_order : s.rodata ≤ s.rodata_end
  pub data_order : s.data_start ≤ s.bss_end
  pub text_page : s.text % 4096 ≡ 0
  pub rodata_page : s.rodata % 4096 ≡ 0
  pub data_page : s.data_start % 4096 ≡ 0
  pub text_apart : s.text + pages_of s.text s.text_end * 4096 ≤ s.rodata
  pub rodata_apart : s.rodata + pages_of s.rodata s.rodata_end * 4096 ≤ s.data_start
  pub data_fits : s.data_start + pages_of s.data_start s.bss_end * 4096 < word

-- The tables that the mappings may take: the uppermost one and the one of the linear window, three at
-- first for each of four mappings, and three for each page.
abbrev pub tables_for : SymbolOffsets → ℕ
tables_for s =
    17
    + 3
      * (pages_of s.text s.text_end
          + pages_of s.rodata s.rodata_end
          + pages_of s.data_start s.bss_end)

-- Page `w` is one of the `n` pages from `v` on.
abbrev pub Within : VirtAddr → VirtAddr → ℕ → Type 0
Within w v n = (j : ℕ) × (j < n) × (page w ≡ page (v + j * 4096))

-- The entries of the last level: those of the sections and of the interrupt controller's registers, and no
-- others outside the linear window.
pub record IsWritten (s : SymbolOffsets) (root : VirtAddr) (m : Memory) : Type 0 where
  pub cr3 : virt_to_phys root ≡ ok m.cr3
  pub window : IsWindow root m
  pub text_pages :
      (j w : ℕ)
      → j < pages_of s.text s.text_end
      → page w ≡ page (s.text + j * 4096)
      → Holds
          (lookup m.nodes root w)
          (s.text - kernel_code_base_vaddr + j * 4096)
          read_execute_kernel
  pub rodata_pages :
      (j w : ℕ)
      → j < pages_of s.rodata s.rodata_end
      → page w ≡ page (s.rodata + j * 4096)
      → Holds (lookup m.nodes root w) (s.rodata - kernel_code_base_vaddr + j * 4096) read_kernel
  pub data_pages :
      (j w : ℕ)
      → j < pages_of s.data_start s.bss_end
      → page w ≡ page (s.data_start + j * 4096)
      → Holds
          (lookup m.nodes root w)
          (s.data_start - kernel_code_base_vaddr + j * 4096)
          read_write_kernel
  pub apic_pages :
      (w : VirtAddr)
      → page w ≡ page apic_io_start_addr
      → Holds (lookup m.nodes root w) apic_io_start_addr read_write_kernel_io
  pub nothing_else :
      (w : VirtAddr)
      → digit w 4 ≢ 273
      → (Within w s.text (pages_of s.text s.text_end) → ⊥)
      → (Within w s.rodata (pages_of s.rodata s.rodata_end) → ⊥)
      → (Within w s.data_start (pages_of s.data_start s.bss_end) → ⊥)
      → page w ≢ page apic_io_start_addr
      → lookup m.nodes root w ≡ 0

-- Two stretches of pages in the window of the kernel image that do not meet.
apart :
    (v n v' n' w j : ℕ)
    → kernel_code_base_vaddr ≤ v
    → kernel_code_base_vaddr ≤ v'
    → v + n * 4096 < word
    → v' + n' * 4096 < word
    → v % 4096 ≡ 0
    → v' % 4096 ≡ 0
    → j < n
    → page w ≡ page (v + j * 4096)
    → (i : ℕ) → (v + n * 4096 ≤ v') ⊎ (v' + n' * 4096 ≤ v)
    → i < n'
    → page w ≢ page (v' + i * 4096)
apart v n v' n' w j a b c d e f lt at i (inl side) lt' at' = omega arith
apart v n v' n' w j a b c d e f lt at i (inr side) lt' at' = omega arith

not_apic :
    (v n w j : ℕ)
    → kernel_code_base_vaddr ≤ v
    → v + n * 4096 < word
    → j < n
    → page w ≡ page (v + j * 4096)
    → page w ≢ page apic_io_start_addr
not_apic v n w j a b lt at at' = omega arith

pub kernel-gate :
    (v n w j : ℕ)
    → kernel_code_base_vaddr ≤ v
    → v + n * 4096 < word
    → j < n
    → page w ≡ page (v + j * 4096)
    → gate (digit w 4) ≡ true
kernel-gate v n w j a b lt at = let e : digit w 4 ≡ 511 = omega arith in ap gate e

module _ (s : SymbolOffsets) (image : IsImage s) (root : VirtAddr) where
  abbrev n1 : ℕ
  n1 = pages_of s.text s.text_end

  abbrev n2 : ℕ
  n2 = pages_of s.rodata s.rodata_end

  abbrev n3 : ℕ
  n3 = pages_of s.data_start s.bss_end

  abbrev s0 : Shape
  s0 = root_shape root

  pub rodata_base : kernel_code_base_vaddr ≤ s.rodata
  rodata_base = omega (arith, image.base, image.text_apart)

  pub data_base : kernel_code_base_vaddr ≤ s.data_start
  data_base = omega (arith, rodata_base, image.rodata_apart)

  pub rodata_fits : s.rodata + n2 * 4096 < word
  rodata_fits = omega (arith, image.rodata_apart, image.data_fits)

  pub text_fits : s.text + n1 * 4096 < word
  text_fits = omega (arith, image.text_apart, rodata_fits)

  -- What the four mappings translate one after the other.
  pub spaces :
      (m2 m3 m4 m5 m6 : Memory) (phys : PhysAddr)
      → ((w : VirtAddr) → gate (digit w 4) ≡ true → lookup m2.nodes root w ≡ 0)
      → IsTranslated root s0 s.text (s.text - kernel_code_base_vaddr) read_execute_kernel n1 m2 m3
      → IsTranslated root s0 s.rodata (s.rodata - kernel_code_base_vaddr) read_kernel n2 m3 m4
      → IsTranslated root s0 s.data_start
          (s.data_start - kernel_code_base_vaddr)
          read_write_kernel
          n3
          m4
          m5
      → IsTranslated root s0 apic_io_start_addr apic_io_start_addr read_write_kernel_io 1 m5 m6
      → virt_to_phys root ≡ ok phys
      → IsWindow root m6
      → IsWritten s root (record m6 { cr3 = phys })
  spaces m2 m3 m4 m5 m6 phys empty t r d a translated window = record {
    cr3 = translated;
    window = record { present = window.present; plain = window.plain; frames = window.frames };
    text_pages = λ j w lt at.
        let o = kernel-gate s.text n1 w j image.base text_fits lt at in
        let kept : lookup m6.nodes root w ≡ lookup m3.nodes root w =
          a.others w o
            (λ i b at'. not_apic s.text n1 w j image.base text_fits lt at (first_page i w b at'))
          ∙ d.others w o (λ i b at'.
            apart s.text n1 s.data_start n3 w j image.base data_base text_fits image.data_fits
              image.text_page image.data_page lt at i
              (inl (omega (arith, image.text_apart, image.rodata_apart))) b at')
          ∙ r.others w o (λ i b at'.
            apart s.text n1 s.rodata n2 w j image.base rodata_base text_fits rodata_fits
              image.text_page image.rodata_page lt at i (inl image.text_apart) b at') in
        rw kept (t.pages j w lt at);
    rodata_pages = λ j w lt at.
        let o = kernel-gate s.rodata n2 w j rodata_base rodata_fits lt at in
        let kept : lookup m6.nodes root w ≡ lookup m4.nodes root w =
          a.others w o (λ i b at'.
            not_apic s.rodata n2 w j rodata_base rodata_fits lt at (first_page i w b at'))
          ∙ d.others w o (λ i b at'.
            apart s.rodata n2 s.data_start n3 w j rodata_base data_base rodata_fits image.data_fits
              image.rodata_page image.data_page lt at i (inl image.rodata_apart) b at') in
        rw kept (r.pages j w lt at);
    data_pages = λ j w lt at.
        let o = kernel-gate s.data_start n3 w j data_base image.data_fits lt at in
        let kept : lookup m6.nodes root w ≡ lookup m5.nodes root w = a.others w o (λ i b at'.
          not_apic s.data_start n3 w j data_base image.data_fits lt at (first_page i w b at')) in
        rw kept (d.pages j w lt at);
    apic_pages = λ w at. a.pages 0 w (omega arith) at;
    nothing_else = λ w o no_text no_rodata no_data no_apic.
        let open_w : gate (digit w 4) ≡ true = ground arith in
        a.others w open_w (λ i b at. no_apic (first_page i w b at))
        ∙ d.others w open_w (λ i b at. no_data (i, b, at))
        ∙ r.others w open_w (λ i b at. no_rodata (i, b, at))
        ∙ t.others w open_w (λ i b at. no_text (i, b, at))
        ∙ empty w open_w;
  }
    where
      first_page :
          (i w : ℕ)
          → i < 1
          → page w ≡ page (apic_io_start_addr + i * 4096)
          → page w ≡ page apic_io_start_addr
      first_page i w b at = let none_else : i ≡ 0 = omega arith in ground arith
