-- ===== src/Paging/Walk/Entries.antt =====
-- Entries that lead to tables, in kernel/src/paging.rs, and what `get_or_alloc_next_level_table` gives
-- for an entry that is present or not.
use noctis.Common.{ℕ, ◌+◌, ◌-◌, ◌%◌, ◌≤◌, ◌<◌, ◌≡◌, ◌≢◌, ap, arith, bit_or, true, false, ok}
use noctis.MemLayout.{VirtAddr, liner_mapping_base_vaddr, liner_mapping_size}
use noctis.Paging.Entry.{PageTableEntry, is_present, attr_value, read_write_execute_kernel}
use noctis.Paging.Entry.Fields.{Rights, table_entry}
use noctis.Paging.Memory.{Memory, write, box_node}
use noctis.Paging.Memory.Node.{boxed}
use noctis.Paging.Table.{get_or_alloc_next_level_table}
use noctis.Paging.Walk.{child, lookup, Shape, IsOpen}
use noctis.Tables.{IsPlain}

-- An entry that points to a table in the linear window gives it back.
pub found_table :
    (n i : ℕ) (m : Memory)
    → i < 512
    → is_present (m.nodes n i) ≡ true
    → child (m.nodes n i) < liner_mapping_base_vaddr + liner_mapping_size
    → get_or_alloc_next_level_table n i m ≡ ok (child (m.nodes n i), m)
unfolding get_or_alloc_next_level_table
found_table n i m h p c = ground arith

-- The new entry, and the memory with the new table.
abbrev pub pointer : VirtAddr → PageTableEntry
pointer p = bit_or (p - liner_mapping_base_vaddr) (attr_value read_write_execute_kernel)

abbrev pub grown : Memory → ℕ → ℕ → VirtAddr → PageTableEntry → Memory
grown m n i p e = record (boxed m p) { nodes = write (boxed m p).nodes n i e }

pub pointer-child :
    (p : VirtAddr)
    → liner_mapping_base_vaddr ≤ p
    → p < liner_mapping_base_vaddr + liner_mapping_size
    → p % 4096 ≡ 0
    → (is_present (pointer p) ≡ true) × (child (pointer p) ≡ p) × IsPlain (pointer p)
pointer-child p lo hi aligned =
    let (granted, address) =
      table_entry (p - liner_mapping_base_vaddr) (omega arith) (omega arith) in
    (
      ap Rights.present granted,
      omega (arith, address),
      (
        ap Rights.huge granted,
        ap Rights.writable granted,
        ap Rights.user granted,
        ap Rights.executable granted,
      ),
    )

pub new_table :
    (n i : ℕ) (m : Memory) (p : VirtAddr)
    → i < 512
    → is_present (m.nodes n i) ≡ false
    → box_node m ≡ ok (p, boxed m p)
    → n ≢ p
    → liner_mapping_base_vaddr ≤ p
    → p < liner_mapping_base_vaddr + liner_mapping_size
    → p % 4096 ≡ 0
    → get_or_alloc_next_level_table n i m ≡ ok (p, grown m n i p (pointer p))
unfolding get_or_alloc_next_level_table
new_table n i m p h absent made ne lo hi aligned =
    let (present, address, _) = pointer-child p lo hi aligned in ground (arith, made)

-- What growing and storing leave of the nodes that are no tables of the tree, and of the entries above
-- the last level.
pub record Beside (s s' : Shape) (m m' : Memory) : Type 0 where
  pub grows : m.heap.value.next ≤ m'.heap.value.next
  pub apart : (x j : ℕ) → x < m.heap.value.next → s.rank x ≡ 0 → m'.nodes x j ≡ m.nodes x j
  pub unranked : (x : ℕ) → x < m.heap.value.next → s.rank x ≡ 0 → s'.rank x ≡ 0
  pub upper :
      (x j : ℕ) → 1 < s.rank x → is_present (m.nodes x j) ≡ true → m'.nodes x j ≡ m.nodes x j
  pub kept_rank : (x : ℕ) → 0 < s.rank x → s'.rank x ≡ s.rank x

-- What growing leaves of the tables that were there, and of what they translate.
pub record Extends (root : VirtAddr) (s s' : Shape) (m m' : Memory) : Type 0 where
  pub kept : (n i : ℕ) → 0 < s.rank n → is_present (m.nodes n i) ≡ true → m'.nodes n i ≡ m.nodes n i
  pub ranks : (n : ℕ) → 0 < s.rank n → s'.rank n ≡ s.rank n
  pub opens : s'.is_open ≡ s.is_open
  pub same : (v : VirtAddr) → IsOpen s v → lookup m'.nodes root v ≡ lookup m.nodes root v
  pub cr3 : m'.cr3 ≡ m.cr3
  pub beside : Beside s s' m m'
