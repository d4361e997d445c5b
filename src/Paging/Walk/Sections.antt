-- ===== src/Paging/Walk/Sections.antt =====
-- The sections of the kernel image, as `init_paging` of kernel/src/paging.rs maps them.
use noctis.Common.{
  ℕ, ◌+◌, ◌-◌, ◌*◌, ◌%◌, ◌≤◌, ◌<◌, ◌≡◌, refl, sym, ap, ◌∙◌, arith, Bool, true, false, not, ok, word,
  ◌==◌,
}
use noctis.MemLayout.{VirtAddr, virt_to_phys, from_address, kernel_code_base_vaddr}
use noctis.MemLayout.Index.{digit}
use noctis.Paging.Entry.{PageTableAttr}
use noctis.Paging.Memory.{Memory}
use noctis.Paging.Table.{page_size, create_mapping, is_1gib, div_ceil}
use noctis.Paging.Init.{map_section}
use noctis.Paging.Walk.{Shape, IsOpen, IsTree}
use noctis.Paging.Walk.Entries.{Beside}
use noctis.Paging.Walk.Pages.{IsTranslated, reshape}
use noctis.Paging.Walk.Mapping.{mapping-IsTranslated}

-- All entries of the uppermost table but the one of the linear window.
abbrev pub gate : ℕ → Bool
gate i = not (i == 273)

abbrev pub IsGated : Shape → Type 0
IsGated s = s.is_open ≡ gate

abbrev pub pages_of : VirtAddr → VirtAddr → ℕ
pages_of start end = div_ceil (end - start) page_size

kernel-IsOpen : (v : VirtAddr) → kernel_code_base_vaddr ≤ v → v < word → gate (digit v 4) ≡ true
kernel-IsOpen v lo hi = let e : digit v 4 ≡ 511 = omega arith in ap gate e

map_section-run :
    (root start end p size : ℕ) (attr : PageTableAttr) (m m' : Memory)
    → virt_to_phys start ≡ ok p
    → from_address start end ≡ ok size
    → create_mapping root start p size attr m ≡ ok (tt, m')
    → map_section root start end attr m ≡ ok (tt, m')
unfolding map_section
map_section-run root start end p size attr m m' e1 e2 e3 = rw (e1, e2, e3) refl

kernel-virt_to_phys :
    (v : VirtAddr)
    → kernel_code_base_vaddr ≤ v
    → v < word
    → virt_to_phys v ≡ ok (v - kernel_code_base_vaddr)
unfolding virt_to_phys
kernel-virt_to_phys v lo hi = ground arith

from_address-ok : (start end : VirtAddr) → start ≤ end → from_address start end ≡ ok (end - start)
unfolding from_address
from_address-ok start end h = ground arith

-- A section of the kernel image is mapped to the frames that lie under it.
pub map_section-IsTranslated :
    (root spare start end : ℕ) (attr : PageTableAttr) (s0 s : Shape) (m : Memory)
    → IsTree root (spare + 3 + 3 * pages_of start end) s m
    → IsGated s0
    → IsGated s
    → is_1gib attr ≡ false
    → start % 4096 ≡ 0
    → kernel_code_base_vaddr ≤ start
    → start ≤ end
    → start + pages_of start end * 4096 < word
    → (m' : Memory) × (s' : Shape) × (map_section root start end attr m ≡ ok (tt, m'))
      × IsTree root spare s' m'
      × IsGated s'
      × Beside s s' m m'
      × IsTranslated root s0 start (start - kernel_code_base_vaddr) attr (pages_of start end) m m'
map_section-IsTranslated root spare start end attr s0 s m tree g0 g small aligned lo order fits =
    let n = pages_of start end in
    let p = start - kernel_code_base_vaddr in
    let opened : (j : ℕ) → j < n → IsOpen s (start + j * 4096) = λ j lt.
      ap (λ (f : ℕ → Bool). f (digit (start + j * 4096) 4)) g
      ∙ kernel-IsOpen (start + j * 4096) (omega arith) (omega arith) in
    let (m', s', run, tree', still, beside, done) =
      mapping-IsTranslated root spare start p (end - start) attr s m tree
        (ap (λ (f : ℕ → Bool). f (digit start 4)) g
          ∙ kernel-IsOpen start (omega arith) (omega arith))
        opened small aligned (omega arith) (omega arith) fits (omega arith) in
    (
      m',
      s',
      map_section-run root start end p (end - start) attr m m'
          (kernel-virt_to_phys start lo (omega arith)) (from_address-ok start end order) run,
      tree',
      still ∙ g,
      beside,
      reshape root n start p attr s0 s m m' (g ∙ sym g0) done,
    )
