-- ===== src/Paging/Entry.antt =====
-- `PageTableAttr` and `PageTableEntry` of kernel/src/paging.rs (loader/src/paging.rs has the same).
pub mod Fields
use noctis.Common.{
  ℕ, ◌+◌, ◌-◌, ◌*◌, ◌^◌, bit_and, bit_or, Bool, true, false, not, Outcome, ok, err,
  not_page_aligned, word, not_word, ◌==◌, if◌then◌else◌,
}
use noctis.MemLayout.{PhysAddr}

abbrev pub pte_attr_mask : ℕ
pte_attr_mask = 0x7FFF_FFFF_FFFF_F000

abbrev pub pte_attr_present : ℕ
pte_attr_present = 2 ^ 0

abbrev pub pte_attr_writable : ℕ
pte_attr_writable = 2 ^ 1

abbrev pub pte_attr_user_accessible : ℕ
pte_attr_user_accessible = 2 ^ 2

abbrev pub pte_attr_write_through : ℕ
pte_attr_write_through = 2 ^ 3

abbrev pub pte_attr_cache_disabled : ℕ
pte_attr_cache_disabled = 2 ^ 4

abbrev pub pte_attr_huge_page : ℕ
pte_attr_huge_page = 2 ^ 7

abbrev pub pte_attr_not_executable : ℕ
pte_attr_not_executable = 2 ^ 63

pub data PageTableAttr : Type 0 where
  not_present read_execute_kernel read_kernel read_write_execute_kernel : PageTableAttr
  read_write_kernel read_write_kernel_1gib read_write_kernel_io : PageTableAttr

-- `attr as u64`
unfoldable pub attr_value : PageTableAttr → ℕ
attr_value not_present = 0
attr_value read_execute_kernel = pte_attr_present
attr_value read_kernel = bit_or pte_attr_present pte_attr_not_executable
attr_value read_write_execute_kernel = bit_or pte_attr_present pte_attr_writable
attr_value read_write_kernel =
    bit_or (bit_or pte_attr_present pte_attr_writable) pte_attr_not_executable
attr_value read_write_kernel_1gib =
    bit_or (bit_or (bit_or pte_attr_present pte_attr_writable) pte_attr_not_executable)
      pte_attr_huge_page
attr_value read_write_kernel_io =
    bit_or
      (bit_or (bit_or (bit_or pte_attr_present pte_attr_writable) pte_attr_write_through)
        pte_attr_cache_disabled)
      pte_attr_not_executable

-- A `PageTableEntry` is transparent over its `value: u64`.
abbrev pub PageTableEntry : Type 0
PageTableEntry = ℕ

-- `bit` is below 64 at every call.
unfoldable pub get_bit : PageTableEntry → ℕ → Bool
get_bit self bit = not (bit_and self (2 ^ bit) == 0)

unfoldable pub set_bit : PageTableEntry → ℕ → Bool → PageTableEntry
set_bit self bit value = if value then bit_or self (2 ^ bit) else bit_and self (not_word (2 ^ bit))

unfoldable pub is_present : PageTableEntry → Bool
unfolding get_bit
is_present self = get_bit self 0

unfoldable pub is_writable : PageTableEntry → Bool
unfolding get_bit
is_writable self = get_bit self 1

unfoldable pub is_user_accessible : PageTableEntry → Bool
unfolding get_bit
is_user_accessible self = get_bit self 2

unfoldable pub is_huge : PageTableEntry → Bool
unfolding get_bit
is_huge self = get_bit self 7

unfoldable pub is_executable : PageTableEntry → Bool
unfolding get_bit
is_executable self = not (get_bit self 63)

unfoldable pub paddr : PageTableEntry → PhysAddr
paddr self = bit_and self pte_attr_mask

-- The new value of the entry, or the error that leaves it as it was.
unfoldable pub set_entry : PhysAddr → PageTableAttr → Outcome PageTableEntry
unfolding attr_value
set_entry phys attr =
    if bit_and phys (not_word pte_attr_mask) == 0
    then ok (bit_or phys (attr_value attr))
    else err not_page_aligned
