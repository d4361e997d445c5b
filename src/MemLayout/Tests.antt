-- ===== src/MemLayout/Tests.antt =====
-- The theorems on kernel/src/memlayout.rs at addresses of the kernel.
use noctis.Common.{
  ℕ, ◌+◌, ◌-◌, ◌*◌, ◌%◌, ◌^◌, ◌≤◌, ◌<◌, ◌≡◌, refl, ok, panic, overflow, assertion, unsupported,
  word,
}
use noctis.MemLayout.{
  MSize, pml4_index, pdpt_index, pd_index, pt_index, page_align_up, virt_to_phys,
  liner_mapping_size, liner_mapping_base_vaddr, max_phys_addr, kernel_code_base_vaddr,
}
use noctis.MemLayout.Index.{index_digits, page_align_up_lem}
use noctis.MemLayout.Translate.{round_trip, alias_start, round_trip_lem}

kernel_code_at : virt_to_phys 0xFFFF_FFFF_8020_0000 ≡ ok 0x20_0000
unfolding virt_to_phys
kernel_code_at = refl

index_digits_example :
    (i4 i3 i2 i1 : ℕ) × (pml4_index kernel_code_base_vaddr ≡ ok i4)
    × (pdpt_index kernel_code_base_vaddr ≡ ok i3)
    × (pd_index kernel_code_base_vaddr ≡ ok i2)
    × (pt_index kernel_code_base_vaddr ≡ ok i1)
    × (i4 < 512)
    × (i3 < 512)
    × (i2 < 512)
    × (i1 < 512)
    × (i4 * 2 ^ 39 + i3 * 2 ^ 30 + i2 * 2 ^ 21 + i1 * 2 ^ 12 + kernel_code_base_vaddr % 2 ^ 12
        ≡ kernel_code_base_vaddr % 2 ^ 48)
index_digits_example = index_digits kernel_code_base_vaddr

page_align_up_lem_example :
    (5000 + 0xFFF < word
      → (r : MSize) × (page_align_up 5000 ≡ ok r) × (5000 ≤ r) × (r < 5000 + 4096) × (r % 4096 ≡ 0))
    × (word ≤ 5000 + 0xFFF → page_align_up 5000 ≡ panic overflow)
page_align_up_lem_example = page_align_up_lem 5000

round_trip_lem_example :
    (0x20_0000 ≤ liner_mapping_size → round_trip 0x20_0000 ≡ ok 0x20_0000)
    × (liner_mapping_size < 0x20_0000
        → 0x20_0000 < alias_start
        → round_trip 0x20_0000 ≡ panic unsupported)
    × (alias_start ≤ 0x20_0000
        → 0x20_0000 + liner_mapping_base_vaddr < word
        → round_trip 0x20_0000 ≡ ok (0x20_0000 - alias_start))
    × (word ≤ 0x20_0000 + liner_mapping_base_vaddr
        → 0x20_0000 < max_phys_addr
        → round_trip 0x20_0000 ≡ panic overflow)
    × (max_phys_addr ≤ 0x20_0000 → round_trip 0x20_0000 ≡ panic assertion)
round_trip_lem_example = round_trip_lem 0x20_0000
