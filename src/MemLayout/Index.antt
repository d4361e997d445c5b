-- ===== src/MemLayout/Index.antt =====
-- The table indices of a virtual address, and the rounding of a size to pages, in
-- kernel/src/memlayout.rs.
use noctis.Common.{ℕ, ◌+◌, ◌-◌, ◌*◌, ◌/◌, ◌%◌, ◌^◌, ◌≤◌, ◌<◌, ◌≡◌, arith, ok, panic, overflow, word}
use noctis.Common.Bits.{bit_and-mask, bit_and-high}
use noctis.MemLayout.{
  VirtAddr, nth_level_table_index, pml4_index, pdpt_index, pd_index, pt_index, page_align_up, MSize,
}

-- The digit of level `level`, 9 bits wide, above the 12 bits of the page offset.
abbrev pub digit : VirtAddr → ℕ → ℕ
digit v level = v / 2 ^ (12 + (level - 1) * 9) % 512

pub nth_level_table_index-digit :
    (v : VirtAddr) (level : ℕ)
    → 1 ≤ level
    → level ≤ 4
    → nth_level_table_index v level ≡ ok (digit v level)
unfolding nth_level_table_index
nth_level_table_index-digit v level lo hi =
    ground (arith, bit_and-mask 9 (v / 2 ^ (12 + (level - 1) * 9)))

-- The four indices of any address are returned, lie below 512, and with the offset in the page give
-- back the low 48 bits of the address.
pub index_digits :
    (v : VirtAddr)
    → (i4 i3 i2 i1 : ℕ) × (pml4_index v ≡ ok i4)
      × (pdpt_index v ≡ ok i3)
      × (pd_index v ≡ ok i2)
      × (pt_index v ≡ ok i1)
      × (i4 < 512)
      × (i3 < 512)
      × (i2 < 512)
      × (i1 < 512)
      × (i4 * 2 ^ 39 + i3 * 2 ^ 30 + i2 * 2 ^ 21 + i1 * 2 ^ 12 + v % 2 ^ 12 ≡ v % 2 ^ 48)
unfolding pml4_index pdpt_index pd_index pt_index
index_digits v = (
  digit v 4,
  digit v 3,
  digit v 2,
  digit v 1,
  nth_level_table_index-digit v 4 (omega arith) (omega arith),
  nth_level_table_index-digit v 3 (omega arith) (omega arith),
  nth_level_table_index-digit v 2 (omega arith) (omega arith),
  nth_level_table_index-digit v 1 (omega arith) (omega arith),
  omega arith,
  omega arith,
  omega arith,
  omega arith,
  omega arith,
)

-- `page_align_up` gives the least multiple of the page size that is not below, and panics where
-- the sum does not fit.
pub page_align_up_lem :
    (size : MSize)
    → (size + 0xFFF < word
        → (r : MSize) × (page_align_up size ≡ ok r)
          × (size ≤ r)
          × (r < size + 4096)
          × (r % 4096 ≡ 0))
      × (word ≤ size + 0xFFF → page_align_up size ≡ panic overflow)
unfolding page_align_up
page_align_up_lem size = (
  λ h. (
    (size + 0xFFF) / 4096 * 4096,
    ground (arith, bit_and-high 12 52 (size + 0xFFF)),
    omega arith,
    omega arith,
    omega arith,
  ),
  λ h. ground arith,
)
