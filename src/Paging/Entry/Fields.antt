-- ===== src/Paging/Entry/Fields.antt =====
-- What the accessors of kernel/src/paging.rs read from an entry that `set_entry` made.
use noctis.Common.{
  ℕ, ◌+◌, ◌-◌, ◌*◌, ◌/◌, ◌%◌, ◌^◌, ◌≤◌, ◌<◌, bit_and, bit_or, ◌≡◌, ◌≢◌, ap, ◌∙◌, arith, Bool, true,
  false, not, ok, err, not_page_aligned, word, not_word, ◌==◌,
}
use noctis.Common.Bits.{
  bit_and-mask, bit_and-bit, bit_and-cut, bit_or-cut, bit_or-zero, zero-bit_or, bit_and-zero,
}
use native.Mathlib.Nat.{one-le-pow}
use noctis.MemLayout.{PhysAddr}
use noctis.Paging.Entry.{
  PageTableAttr, not_present, read_execute_kernel, read_kernel, read_write_execute_kernel,
  read_write_kernel, read_write_kernel_1gib, read_write_kernel_io, attr_value, PageTableEntry,
  get_bit, is_present, is_writable, is_user_accessible, is_huge, is_executable, paddr, set_entry,
  pte_attr_mask,
}

-- The address field: bits 12 to 62.
pub paddr-eq : (e : PageTableEntry) → paddr e ≡ e / 2 ^ 12 % 2 ^ 51 * 2 ^ 12
unfolding paddr
paddr-eq e = ground (
  arith,
  bit_and-cut 12 (e / 2 ^ 12) (2 ^ 51 - 1) (e % 2 ^ 12) 0,
  bit_and-mask 51 (e / 2 ^ 12),
  bit_and-zero (e % 2 ^ 12),
)

pub get_bit-eq : (e : PageTableEntry) (k : ℕ) → get_bit e k ≡ (e / 2 ^ k % 2 == 1)
unfolding get_bit
get_bit-eq e k = ground (arith, bit_and-bit k e, one-le-pow k 2)

outside_mask : (p : ℕ) → bit_and p (not_word pte_attr_mask) ≡ p / 2 ^ 63 % 2 * 2 ^ 63 + p % 2 ^ 12
outside_mask p = ground (
  arith,
  bit_and-cut 12 (p / 2 ^ 12) (2 ^ 51) (p % 2 ^ 12) 4095,
  bit_and-mask 12 (p % 2 ^ 12),
  bit_and-bit 51 (p / 2 ^ 12),
)

-- `|` of an address, the bits below the address field, and bit 63.
join :
    (p h l : ℕ)
    → p < 2 ^ 63
    → p % 2 ^ 12 ≡ 0
    → l < 2 ^ 12
    → bit_or p (h * 2 ^ 63 + l) ≡ h * 2 ^ 63 + p + l
join p h l fits aligned hl = ground (
  arith,
  bit_or-cut 12 (p / 2 ^ 12) (h * 2 ^ 51) 0 l,
  bit_or-cut 51 0 h (p / 2 ^ 12) 0,
  zero-bit_or h,
  zero-bit_or l,
  bit_or-zero (p / 2 ^ 12),
)

-- What the name of an attribute says.
pub record Rights : Type 0 where
  pub present : Bool
  pub writable : Bool
  pub user : Bool
  pub huge : Bool
  pub executable : Bool

abbrev pub grants : Bool → Bool → Bool → Bool → Rights
grants p w h x = record { present = p; writable = w; user = false; huge = h; executable = x }

abbrev pub rights : PageTableAttr → Rights
rights not_present = grants false false false true
rights read_execute_kernel = grants true false false true
rights read_kernel = grants true false false false
rights read_write_execute_kernel = grants true true false true
rights read_write_kernel = grants true true false false
rights read_write_kernel_1gib = grants true true true false
rights read_write_kernel_io = grants true true false false

-- What the accessors read from an entry.
abbrev pub decode : PageTableEntry → Rights
decode e = record {
  present = is_present e;
  writable = is_writable e;
  user = is_user_accessible e;
  huge = is_huge e;
  executable = is_executable e;
}

bits_of :
    (e : PageTableEntry)
    → decode e ≡ record {
      present = e % 2 == 1;
      writable = e / 2 % 2 == 1;
      user = e / 4 % 2 == 1;
      huge = e / 128 % 2 == 1;
      executable = not (e / 2 ^ 63 % 2 == 1);
    }
unfolding is_present is_writable is_user_accessible is_huge is_executable
bits_of e =
    ground (arith, get_bit-eq e 0, get_bit-eq e 1, get_bit-eq e 2, get_bit-eq e 7, get_bit-eq e 63)

entry_of : PhysAddr → PageTableAttr → PageTableEntry
entry_of p a = attr_value a / 2 ^ 63 * 2 ^ 63 + p + attr_value a % 2 ^ 12

joined :
    (p : PhysAddr) (a : PageTableAttr)
    → p < 2 ^ 63
    → p % 2 ^ 12 ≡ 0
    → bit_or p (attr_value a) ≡ entry_of p a
unfolding attr_value entry_of
joined p not_present f h = join p 0 0 f h (omega arith)
joined p a f h = join p (attr_value a / 2 ^ 63) (attr_value a % 2 ^ 12) f h (omega arith)

decode-entry_of :
    (p : PhysAddr) (a : PageTableAttr)
    → p < 2 ^ 63
    → p % 2 ^ 12 ≡ 0
    → decode (entry_of p a) ≡ rights a
unfolding attr_value entry_of
decode-entry_of p not_present f h = rw bits_of (ground arith)
decode-entry_of p a f h = rw bits_of (ground arith)

paddr-entry_of :
    (p : PhysAddr) (a : PageTableAttr) → p < 2 ^ 63 → p % 2 ^ 12 ≡ 0 → paddr (entry_of p a) ≡ p
unfolding attr_value entry_of
paddr-entry_of p not_present f h = rw paddr-eq (omega arith)
paddr-entry_of p a f h = rw paddr-eq (omega arith)

-- Of the 64-bit addresses `set_entry` takes exactly the page-aligned ones below bit 63. The entry then
-- holds the address and the rights that the attribute names; any other address is refused.
pub set_entry_lem :
    (p : PhysAddr) (a : PageTableAttr)
    → p < word
    → (p % 4096 ≡ 0
        → p < 2 ^ 63
        → (e : PageTableEntry) × (set_entry p a ≡ ok e) × (paddr e ≡ p) × (decode e ≡ rights a))
      × (p % 4096 ≢ 0 → set_entry p a ≡ err not_page_aligned)
      × (2 ^ 63 ≤ p → set_entry p a ≡ err not_page_aligned)
unfolding set_entry
set_entry_lem p a w = (
  λ h f. (
    entry_of p a,
    ground (arith, outside_mask p, joined p a f h),
    paddr-entry_of p a f h,
    decode-entry_of p a f h,
  ),
  λ h. ground (arith, outside_mask p),
  λ h. ground (arith, outside_mask p),
)

-- The entry of a table, as `alloc_next_level_table` puts it together.
pub table_entry :
    (p : PhysAddr)
    → p < 2 ^ 63
    → p % 4096 ≡ 0
    → (decode (bit_or p (attr_value read_write_execute_kernel)) ≡ rights read_write_execute_kernel)
      × (paddr (bit_or p (attr_value read_write_execute_kernel)) ≡ p)
table_entry p f h =
    let e = joined p read_write_execute_kernel f h in
    let r = decode-entry_of p read_write_execute_kernel f h in
    (ap decode e ∙ r, ap paddr e ∙ paddr-entry_of p read_write_execute_kernel f h)
