-- ===== src/Paging/Table.antt =====
-- `PageTableEntry`'s node methods and `PageTable` of kernel/src/paging.rs. A `&mut PageTableEntry`
-- is the node that holds the entry and its index; a `&mut PageTableNode` is the node's address.
pub mod Duplicate
pub mod Huge
use noctis.Common.{
  ℕ, zero, suc, ◌+◌, ◌-◌, ◌*◌, ◌/◌, ◌%◌, ◌^◌, bit_or, Bool, true, false, not, ◌&&◌, Option, none,
  some, Outcome, ok, err, already_allocated, unwrapped, some_or, assert, add_usize, mul_usize, ◌==◌,
  ltb, if◌then◌else◌, List, [], ◌∷◌,
}
use noctis.Common as Common
use noctis.MemLayout.{
  PhysAddr, VirtAddr, MSize, add, nth_level_table_index, pml4_index, pdpt_index, pt_index,
  phys_to_virt, virt_to_phys,
}
use noctis.Paging.Entry.{
  PageTableAttr, read_write_execute_kernel, read_write_kernel_1gib, attr_value, PageTableEntry,
  is_present, paddr, set_entry,
}
use noctis.Paging.Memory.{M, pure, lift, unwrap, ◌>>=◌, ◌>>◌, load, store, box_node}

abbrev pub page_size : MSize
page_size = 4096

unfoldable pub next_node_mut : PageTableEntry → Outcome (Option VirtAddr)
unfolding is_present paddr phys_to_virt
next_node_mut self =
    if not (is_present self)
    then ok none
    else Common.◌>>=◌ (phys_to_virt (paddr self)) (λ v. ok (some v))

unfoldable pub alloc_next_level_table : VirtAddr → ℕ → M (Unit {0})
unfolding is_present load store virt_to_phys attr_value
alloc_next_level_table node index = do
  self ← load node index
  if is_present self then lift (err already_allocated) else do
    next ← box_node
    phys_addr ← lift (virt_to_phys next)
    store node index (bit_or phys_addr (attr_value read_write_execute_kernel))

unfoldable pub get_or_alloc_next_level_table : VirtAddr → ℕ → M VirtAddr
unfolding is_present load alloc_next_level_table next_node_mut
get_or_alloc_next_level_table node index = do
  self ← load node index
  (if not (is_present self) then unwrap (alloc_next_level_table node index) else pure tt)
  self' ← load node index
  next ← lift (next_node_mut self')
  lift (some_or unwrapped next)

unfoldable pub set_entry_at : VirtAddr → ℕ → PhysAddr → PageTableAttr → M (Unit {0})
unfolding load store set_entry
set_entry_at node index phys attr = do
  _ ← load node index
  e ← lift (set_entry phys attr)
  store node index e

-- `for level in (2..=4).rev()`
unfoldable pub descend : List ℕ → VirtAddr → VirtAddr → M VirtAddr
unfolding nth_level_table_index get_or_alloc_next_level_table
descend [] vaddr node = pure node
descend (level ∷ levels) vaddr node = do
  index ← lift (nth_level_table_index vaddr level)
  next ← get_or_alloc_next_level_table node index
  descend levels vaddr next

abbrev pub levels : List ℕ
levels = 4 ∷ 3 ∷ 2 ∷ []

-- `for i in 0..(num_pages / (1 << 18))`, with the rounds left first.
unfoldable pub map_huge : ℕ → ℕ → VirtAddr → ℕ → PhysAddr → PageTableAttr → M (Unit {0})
unfolding load store
map_huge zero i pdpt index phys attr = pure tt
map_huge (suc left) i pdpt index phys attr = do
  at ← lift (add_usize index i)
  _ ← load pdpt at
  offset ← lift (mul_usize i (2 ^ 30))
  target ← lift (add_usize phys offset)
  e ← lift (set_entry target attr)
  store pdpt at e
  map_huge left (i + 1) pdpt index phys attr

-- `for i in 0..num_pages`, with the rounds left first.
module _ (self : VirtAddr) (start_index : ℕ) (attr : PageTableAttr) where
  unfoldable pub map_pages : ℕ → ℕ → VirtAddr → VirtAddr → PhysAddr → M (Unit {0})
  unfolding descend set_entry_at add
  map_pages zero i node vaddr paddr = pure tt
  map_pages (suc left) i node vaddr paddr = do
    sum ← lift (add_usize start_index i)
    let index = sum % 512
    node' ← (if index == 0 && not (i == 0) then descend levels vaddr self else pure node)
    set_entry_at node' index paddr attr
    vaddr' ← lift (add vaddr page_size)
    paddr' ← lift (add paddr page_size)
    map_pages left (i + 1) node' vaddr' paddr'

abbrev pub is_1gib : PageTableAttr → Bool
is_1gib read_write_kernel_1gib = true
is_1gib _ = false

-- `PageTable::map`
unfoldable pub map_range : VirtAddr → VirtAddr → PhysAddr → ℕ → PageTableAttr → M (Unit {0})
unfolding map_huge map_pages descend get_or_alloc_next_level_table pml4_index pdpt_index pt_index
map_range self virt_start phys_start num_pages attr = do
  lift (assert (virt_start % page_size == 0))
  lift (assert (phys_start % page_size == 0))
  if is_1gib attr && virt_start % 2 ^ 30 == 0 && phys_start % 2 ^ 30 == 0 && num_pages % 2 ^ 18 == 0
      then (do
        index4 ← lift (pml4_index virt_start)
        index3 ← lift (pdpt_index virt_start)
        pdpt ← get_or_alloc_next_level_table self index4
        map_huge (num_pages / 2 ^ 18) 0 pdpt index3 phys_start attr)
      else do
        node ← descend levels virt_start self
        start_index ← lift (pt_index virt_start)
        map_pages self start_index attr num_pages 0 node virt_start phys_start

-- `usize::div_ceil`
abbrev pub div_ceil : ℕ → ℕ → ℕ
div_ceil a b = if 0 == a % b then a / b else a / b + 1

unfoldable pub create_mapping :
    VirtAddr → VirtAddr → PhysAddr → MSize → PageTableAttr → M (Unit {0})
unfolding map_range
create_mapping self virt_start phys_start size attr =
    map_range self virt_start phys_start (div_ceil size page_size) attr

-- The loop of `duplicate_kernel`, over the entries from `i` on.
unfoldable pub copy_present : ℕ → ℕ → VirtAddr → VirtAddr → M (Unit {0})
unfolding load store is_present
copy_present zero i self new_table = pure tt
copy_present (suc left) i self new_table = do
  entry ← load self i
  (if is_present entry then store new_table i entry else pure tt)
  copy_present left (i + 1) self new_table

unfoldable pub duplicate_kernel : VirtAddr → M VirtAddr
unfolding box_node copy_present
duplicate_kernel self = do new_table ← box_node; copy_present 512 0 self new_table; pure new_table
