-- ===== src/Loader/Address.antt =====
-- `VirtAddr` and `MSize` of loader/src/paging.rs: a virtual address is made canonical where it is made.
pub mod Canonical
use noctis.Common.{
  ℕ, ◌+◌, ◌-◌, ◌*◌, ◌/◌, ◌%◌, ◌^◌, bit_and, bit_or, Outcome, ok, ◌>>=◌, add_usize, sub_usize,
  mul_usize, panic, overflow, ltb, not_word, ◌==◌, if◌then◌else◌,
}

abbrev pub VirtAddr : Type 0
VirtAddr = ℕ

unfoldable pub canonicalize : ℕ → ℕ
canonicalize addr =
    if bit_and addr (2 ^ 47) == 0
    then bit_and addr 0x0000_FFFF_FFFF_FFFF
    else bit_or addr 0xFFFF_0000_0000_0000

unfoldable pub new : ℕ → VirtAddr
unfolding canonicalize
new addr = canonicalize addr

-- `VirtAddr::add`, with `wrapping_add`.
unfoldable pub add : VirtAddr → ℕ → VirtAddr
unfolding new
add self offset = new ((self + offset) % 2 ^ 64)

unfoldable pub align_up_to_page : ℕ → Outcome ℕ
align_up_to_page self = do
  sum ← add_usize self 4096
  rounded ← sub_usize sum 1
  ok (bit_and rounded (not_word (4096 - 1)))

abbrev shr : VirtAddr → ℕ → Outcome ℕ
shr a k = if ltb k 64 then ok (a / 2 ^ k) else panic overflow

unfoldable pub nth_level_table_index : VirtAddr → ℕ → Outcome ℕ
nth_level_table_index self level = do
  below ← sub_usize level 1
  bits ← mul_usize below 9
  shift ← add_usize 12 bits
  shifted ← shr self shift
  ok (bit_and shifted 0x1FF)

unfoldable pub pml4_index : VirtAddr → Outcome ℕ
unfolding nth_level_table_index
pml4_index self = nth_level_table_index self 4

unfoldable pub pdpt_index : VirtAddr → Outcome ℕ
unfolding nth_level_table_index
pdpt_index self = nth_level_table_index self 3

unfoldable pub pd_index : VirtAddr → Outcome ℕ
unfolding nth_level_table_index
pd_index self = nth_level_table_index self 2

unfoldable pub pt_index : VirtAddr → Outcome ℕ
unfolding nth_level_table_index
pt_index self = nth_level_table_index self 1
